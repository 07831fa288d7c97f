-- ===== src/Filc/Candidates/Comparison.antt =====
-- filc/retrieval.go: what the comparison of the candidates says.
use filclient.Base.{ℕ, true, false, ◌≡◌, Option, none, some, List, arith, ◌≢◌, Bool-cases, inl, inr}
use filclient.Base.Big.{Big}
use filclient.Rep.Event.{QueryResponse}
use filclient.Filc.Candidates.{CandidateQuery, total_cost, prefer, compared, less, get_elem?}

-- Numbers compare as equal to themselves.
abbrev pub EqualsItself : {Int : Type 0} → Big Int → Type 0
EqualsItself {Int} big = (n : Int) → big.equals n n ≡ true

module _ {Int : Type 0} (big : Big Int) (self : EqualsItself big) where
  prefer_self : (a : QueryResponse Int) → prefer big a a ≡ false
  unfolding prefer
  prefer_self a = elim (Bool-cases (big.is_zero a.unseal_price)) [
    | inl e ↦ rw (e, self (total_cost big a)) (ground arith)
    | inr e ↦ rw (e, self (total_cost big a)) (ground arith)
  ]

  compared_self : (o : Option (CandidateQuery Int)) → compared big o o ≢ some true
  unfolding compared
  compared_self none h = cc
  compared_self (some q) h = absurd (let e = prefer_self q.response in cc)

-- If numbers equal themselves: the function that the candidates are sorted by never says that one
-- answer goes before another, at no two indices and whatever their prices and sizes are. It compares
-- the answer at `i` with itself.
pub less-Never :
    {Int : Type 0} (big : Big Int) (queries : List (CandidateQuery Int)) (i j : ℕ)
    → EqualsItself big
    → less big queries i j ≢ some true
unfolding less
less-Never big queries i j self = compared_self big self (get_elem? queries i)
