-- ===== src/Balance/Found.antt =====
-- filclient.go: which errors of the gateway `CheckChainDeal` takes for a missing deal.
use filclient.Base.{ℕ, String, str_append, true, false, ◌≡◌, refl, ap, ◌∙◌, none}
use filclient.Base.Big.{Big}
use filclient.Errors.{GoError, message, wrap, coded, code_string, error_text, ok, err}
use filclient.Strconv.Contains.{contains, contains-append, contains-left}
use filclient.Balance.{ChainApi, deal_not_found, judge_chain_deal, check_chain_deal}

-- The text at the end of an error's chain.
abbrev pub root : GoError → String
root (message s) = s
root (wrap s e) = root e
root (coded code e) = root e

contains-error_text :
    (sub : String) (e : GoError) → contains sub (root e) ≡ true → contains sub (error_text e) ≡ true
contains-error_text sub (message s) h = h
contains-error_text sub (wrap s e) h =
    contains-left sub s _ (contains-left sub ": " _ (contains-error_text sub e h))
contains-error_text sub (coded code e) h =
    contains-left sub (code_string code) _ (contains-left sub ": " _ (contains-error_text sub e h))

-- However the gateway's error is wrapped: if the text at its end has the words that the deal of this
-- number is not found, with any text around them, `CheckChainDeal` says that the deal is not on
-- chain, and reports no error.
pub check_chain_deal-not_found :
    {W Int Deal : Type 0} (big : Big Int) (chain : ChainApi W Int Deal) (dealid : ℕ) (w w' : W)
    (e : GoError) (before after : String)
    → chain.state_market_storage_deal dealid w ≡ (err e, w')
    → root e ≡ str_append before (str_append (deal_not_found big chain dealid) after)
    → check_chain_deal big chain dealid w ≡ (ok (false, none), w')
unfolding check_chain_deal judge_chain_deal
check_chain_deal-not_found big chain dealid w w' e before after q h =
    rw
      (
        q,
        contains-error_text (deal_not_found big chain dealid) e (
            ap (contains (deal_not_found big chain dealid)) h
            ∙ contains-left (deal_not_found big chain dealid) before _ (contains-append _ after)),
      )
      refl
