-- ===== src/Rep/Publisher/Keys.antt =====
-- The keys under which subscribers are kept, and what unsubscribing does.
use filclient.Base.{
  ℕ, ◌+◌, ◌^◌, ◌<◌, ◌≡◌, refl, subst, ◌∙◌, ◌≢◌, Option, none, some, List, [], ◌∷◌, length, arith,
  ◌==◌, if◌then◌else◌,
}
use filclient.Rep.Publisher.{Entry, remove, Publisher, subscribe, unsubscribe}

module _ {Sub : Type 0} where
  -- The subscriber under a key.
  abbrev pub subscriber : ℕ → List (Entry Sub) → Option Sub
  subscriber key [] = none
  subscriber key ((k, s) ∷ rest) = if k == key then some s else subscriber key rest

  -- Every key is below `n`.
  abbrev pub Below : ℕ → List (Entry Sub) → Type 0
  Below n [] = Unit
  Below n ((k, s) ∷ rest) = (k < n) × Below n rest

  pub subscriber-remove :
      (key j : ℕ) (es : List (Entry Sub))
      → subscriber j (remove key es) ≡ (if key == j then none else subscriber j es)
  unfolding remove
  subscriber-remove key j [] = ground arith
  subscriber-remove key j ((k, s) ∷ rest) = ground (arith, subscriber-remove key j rest)

  remove_fresh : (n : ℕ) (es : List (Entry Sub)) → Below n es → remove n es ≡ es
  unfolding remove
  remove_fresh n [] b = refl
  remove_fresh n ((k, s) ∷ rest) b = ground (arith, remove_fresh n rest b.1)

  Below-remove : (key n : ℕ) (es : List (Entry Sub)) → Below n es → Below n (remove key es)
  unfolding remove
  Below-remove key n [] b = tt
  Below-remove key n ((k, s) ∷ rest) b = ground (arith, Below-remove key n rest b.1)

  Below-suc : (n : ℕ) (es : List (Entry Sub)) → Below n es → Below (n + 1) es
  Below-suc n [] b = tt
  Below-suc n ((k, s) ∷ rest) b = (omega arith, Below-suc n rest b.1)

-- What other goroutines do to the map in between.
pub data Op (Sub : Type 0) : Type 0 where
  sub : Sub → Op Sub
  unsub : ℕ → Op Sub

-- Nobody else unsubscribes the key.
abbrev pub Spares : {Sub : Type 0} → ℕ → List (Op Sub) → Type 0
Spares key [] = Unit
Spares key (sub s ∷ ops) = Spares key ops
Spares key (unsub k ∷ ops) = (k ≢ key) × Spares key ops

module _ {Sub Event : Type 0} where
  unfoldable pub run : Publisher Sub Event → List (Op Sub) → Publisher Sub Event
  run ep [] = ep
  run ep (sub s ∷ ops) = run (subscribe ep s).0 ops
  run ep (unsub key ∷ ops) = run (unsubscribe ep key) ops

  -- The keys in use are those handed out.
  abbrev pub IsFresh : Publisher Sub Event → Type 0
  IsFresh ep = Below ep.idx ep.subscribers

  idx-subscribe :
      (ep : Publisher Sub Event) (s : Sub)
      → ep.idx + 1 < 2 ^ 64
      → (subscribe ep s).0.idx ≡ ep.idx + 1
  unfolding subscribe
  idx-subscribe ep s h = omega arith

  subscribe-IsFresh :
      (ep : Publisher Sub Event) (s : Sub)
      → IsFresh ep
      → ep.idx + 1 < 2 ^ 64
      → IsFresh (subscribe ep s).0
  unfolding subscribe
  subscribe-IsFresh ep s b h = (
    omega arith,
    subst (λ n. Below n (remove ep.idx ep.subscribers)) (omega arith)
        (Below-suc ep.idx _ (Below-remove ep.idx ep.idx ep.subscribers b)),
  )

  subscriber-subscribe :
      (ep : Publisher Sub Event) (a : Sub) (key : ℕ)
      → key < ep.idx
      → subscriber key (subscribe ep a).0.subscribers ≡ subscriber key ep.subscribers
  unfolding subscribe
  subscriber-subscribe ep a key lt = ground (arith, subscriber-remove ep.idx key ep.subscribers)

  kept :
      (ep : Publisher Sub Event) (ops : List (Op Sub)) (key : ℕ)
      → IsFresh ep
      → ep.idx + length ops < 2 ^ 64
      → key < ep.idx
      → Spares key ops
      → subscriber key (run ep ops).subscribers ≡ subscriber key ep.subscribers
  unfolding run
  kept ep [] key b h lt spares = refl
  kept ep (sub a ∷ ops) key b h lt spares =
      kept (subscribe ep a).0 ops key (subscribe-IsFresh ep a b (omega arith))
        (omega (arith, idx-subscribe ep a)) (omega (arith, idx-subscribe ep a)) spares
      ∙ subscriber-subscribe ep a key lt
  kept ep (unsub k ∷ ops) key b h lt spares =
      kept (unsubscribe ep k) ops key (unfold unsubscribe in Below-remove k ep.idx ep.subscribers b)
        (unfold unsubscribe in omega arith) (unfold unsubscribe in lt) spares.1
      ∙ unfold unsubscribe in ground (arith, subscriber-remove k key ep.subscribers, spares.0)

  -- Whatever others subscribe and unsubscribe in between, while no more than 2^64 keys are handed
  -- out, a subscriber is found under the key that it was given, and the function that it was given
  -- unsubscribes it and nobody else.
  pub subscribe-unsubscribe :
      (ep : Publisher Sub Event) (s : Sub) (ops : List (Op Sub)) (j : ℕ)
      → IsFresh ep
      → ep.idx + 1 + length ops < 2 ^ 64
      → Spares ep.idx ops
      → let (ep', key) = subscribe ep s in
        let ep'' = run ep' ops in
        (subscriber key ep''.subscribers ≡ some s)
        × (subscriber j (unsubscribe ep'' key).subscribers
            ≡ (if key == j then none else subscriber j ep''.subscribers))
  unfolding subscribe
  subscribe-unsubscribe ep s ops j b h spares = (
    kept (subscribe ep s).0 ops ep.idx (subscribe-IsFresh ep s b (omega arith))
          (omega (arith, idx-subscribe ep s)) (omega (arith, idx-subscribe ep s)) spares
        ∙ unfold subscribe in ground arith,
    unfold unsubscribe in subscriber-remove _ j (run (subscribe ep s).0 ops).subscribers,
  )
