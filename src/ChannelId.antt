-- ===== src/ChannelId.antt =====
-- channelid.go: `ChannelIDFromString`, and the form of a channel id that it reads.
mod Tests
use Prim.Native.Char.{Char, code}
use text.Mathlib.TextLemmas.{cons-append, nil-append}
use filclient.Strconv.Split.{NoChar, split-append, split-of_NoChar, NoChar-format_uint}
use filclient.Base.{
  eq_iff, ℕ, ◌^◌, ◌<◌, ◌%◌, String, str_append, str_eq, Bool, true, false, ◌&&◌, ◌≡◌, refl, ◌∙◌, ap,
  ◌≢◌, List, [], ◌∷◌, arith, Bool-cases, inl, inr, ◌==◌, if◌then◌else◌,
}
use filclient.Errors.{GoError, message, Result, ok, err}
use filclient.Strconv.{Parsed, value, syntax_error, range_error, parse_uint, format_uint, split}
use filclient.Strconv.Decimal.{parse_uint-format_uint}

-- `datatransfer.ChannelID`.
pub record ChannelId : Type 0 where
  pub initiator : String
  pub responder : String
  pub id : ℕ

abbrev dash : ℕ
dash = 45

bad_format : String → GoError
bad_format id = message (
    str_append "cannot parse channel id '"
      (str_append id "': expected format 'initiator-responder-transferid'"))

bad_part : String → String → String → GoError
bad_part what part id = message (
    str_append "parsing " (
      str_append what
        (str_append " '" (str_append part (str_append "' in channel id '" (str_append id "'"))))))

-- `peer.Decode` is not of this repository.
module _ (decode_peer : String → Result String) (id : String) where
  with_xferid : String → String → String → Parsed → Result ChannelId
  unfolding bad_part
  with_xferid initiator responder part (value n) =
      ok (record { initiator = initiator; responder = responder; id = n })
  with_xferid initiator responder part syntax_error = err (bad_part "transfer id" part id)
  with_xferid initiator responder part range_error = err (bad_part "transfer id" part id)

  with_responder : String → String → String → Result String → Result ChannelId
  unfolding with_xferid
  with_responder initiator part xferid (ok responder) =
      with_xferid initiator responder xferid (parse_uint xferid)
  with_responder initiator part xferid (err e) = err (bad_part "responder peer id" part id)

  with_initiator : String → String → String → Result String → Result ChannelId
  unfolding with_responder
  with_initiator part responder xferid (ok initiator) =
      with_responder initiator responder xferid (decode_peer responder)
  with_initiator part responder xferid (err e) = err (bad_part "initiator peer id" part id)

  from_parts : List String → Result ChannelId
  unfolding with_initiator bad_format
  from_parts (a ∷ b ∷ c ∷ []) = with_initiator a b c (decode_peer a)
  from_parts _ = err (bad_format id)

  pub channel_id_from_string : Result ChannelId
  unfolding from_parts
  channel_id_from_string =
      if str_eq id ""
      then err (message "cannot parse empty string as channel id")
      else from_parts (split dash id)

-- The text that `ChannelID.String` is documented to give.
abbrev pub channel_text : String → String → ℕ → String
channel_text a b n = str_append a (String.◌∷◌ "-" (str_append b (String.◌∷◌ "-" (format_uint n))))

append-ne-nil : (a : String) (c : Char) (s : String) → str_append a (String.◌∷◌ c s) ≢ ""
append-ne-nil String.[] c s = rw (nil-append (String.◌∷◌ c s)) (λ e. cc)
append-ne-nil (String.◌∷◌ d a) c s = rw (cons-append d a (String.◌∷◌ c s)) (λ e. cc)

split-channel_text :
    (a b : String) (n : ℕ)
    → NoChar dash a
    → NoChar dash b
    → split dash (channel_text a b n) ≡ a ∷ b ∷ format_uint n ∷ []
split-channel_text a b n ha hb =
    split-append "-" a _ ha
    ∙ ap (◌∷◌ a) (
        split-append "-" b _ hb
        ∙ ap (◌∷◌ b)
            (split-of_NoChar dash (format_uint n) (NoChar-format_uint dash n (omega arith))))

-- A channel id of two peers whose texts have no dash and can be decoded, and of a 64-bit transfer
-- id, is read back from its text.
pub channel_id_from_string-channel_text :
    (decode_peer : String → Result String) (a b initiator responder : String) (n : ℕ)
    → NoChar dash a
    → NoChar dash b
    → decode_peer a ≡ ok initiator
    → decode_peer b ≡ ok responder
    → n < 2 ^ 64
    → channel_id_from_string decode_peer (channel_text a b n)
      ≡ ok (record { initiator = initiator; responder = responder; id = n })
unfolding channel_id_from_string
channel_id_from_string-channel_text decode_peer a b initiator responder n ha hb da db h =
    elim (Bool-cases (str_eq (channel_text a b n) "")) [
      | inl e ↦ absurd (append-ne-nil a "-" _ ((eq_iff _ _).0 e))
      | inr e ↦
          rw (e, split-channel_text a b n ha hb, from_parts)
            (rw (da, with_initiator)
              (rw (db, with_responder) (rw (parse_uint-format_uint n h, with_xferid) refl)))
    ]

-- No number is the text of a channel.
pub channel_id_from_string-format_uint :
    (decode_peer : String → Result String) (n : ℕ)
    → (e : GoError) × (channel_id_from_string decode_peer (format_uint n) ≡ err e)
unfolding channel_id_from_string
channel_id_from_string-format_uint decode_peer n = elim (Bool-cases (str_eq (format_uint n) "")) [
  | inl e ↦ (message "cannot parse empty string as channel id", rw e refl)
  | inr e ↦ (
    bad_format (format_uint n),
    rw
        (
          e,
          split-of_NoChar dash (format_uint n) (NoChar-format_uint dash n (omega arith)),
          from_parts,
        )
        refl,
  )
]
