-- ===== src/Filc/App/Unsealed.antt =====
-- The deal command and the flag that it does not register.
use filclient.Base.{
  ℕ, String, str_append, Bool, true, false, not, ◌≡◌, refl, ap, ◌∙◌, if◌then◌else◌,
}
use filclient.Base.Big.{Big}
use filclient.Errors.{Result, or_wrap}
use filclient.Errors.Action.{
  Action, ◌>>=◌, wrapping, Succeeds, Succeeds-after, Succeeds-after-Succeeds, Succeeds-mono,
}
use filclient.Connection.{Network, deal_protocol_for_miner}
use filclient.Deal.{NetProposal, Market}
use filclient.Deal.Making.{make_deal}
use filclient.Deal.Making.Agreed.{make_deal-raw_block_size}
use filclient.Deal.Sending.{Streams, Codec, get_ask}
use filclient.Filc.Parsing.{Parsers, parse_miner}
use filclient.Filc.Disk.{Disk, save_deal_proposal}
use filclient.Filc.Commands.{Cli, require}
use filclient.Filc.Commands.Deal.{Ask, Made, duration, make_and_save}
use filclient.Filc.Flags.{is_flag}
use filclient.Filc.App.{make_deal_cmd}

bind-Succeeds :
    {W A B : Type 0} (P : A → Type 0) (m : Action W B) (f : B → Action W A) (w : W)
    → ((b : B) (v : W) → Succeeds P (f b v).0)
    → Succeeds P ((m >>= f) w).0
bind-Succeeds P m f w h = Succeeds-after P (m w).0 (m w).1 f (λ b q v. h b v)

module _ {W Int Label Key : Type 0} (cli : Cli W) (parsers : Parsers) (big : Big Int)
    (market : Market W Int Label) (client_addr : String) (streams : Streams W) (net : Network W)
    (disk : Disk W Key (NetProposal Int Label)) (ask_codec : Codec W String (Ask Int))
    (import_file : String → Action W String) (as_ipld : NetProposal Int Label → Result String) where
  abbrev IsFast : Made Int Label → Type 0
  IsFast made = made.proposal.fast_retrieval ≡ true

  make_deal-IsFast :
      (miner payload : String) (price : Int) (min_size : ℕ) (verified unsealed : Bool) (w : W)
      → unsealed ≡ false
      → Succeeds
          (λ net. net.fast_retrieval ≡ true)
          (make_deal big market client_addr miner payload price min_size duration verified unsealed
            w).0
  make_deal-IsFast miner payload price min_size verified unsealed w h =
      Succeeds-mono _ (λ net. net.fast_retrieval ≡ true)
        (make_deal big market client_addr miner payload price min_size duration verified unsealed
          w).0
        (λ net made. made.1.1.0 ∙ ap not h)
        (make_deal-raw_block_size big market client_addr miner payload price min_size duration
          verified unsealed w)

  -- If a boolean flag that the command does not register reads as false, which is what the cli library
  -- does, a deal that the deal command makes asks for fast retrieval: the flag remove-unsealed that the
  -- command reads is not one of its flags.
  pub make_and_save-IsFast :
      ((name : String) → is_flag make_deal_cmd.flags name ≡ false → cli.bool_flag name ≡ false)
      → (ddir : String) (w : W)
      → Succeeds IsFast
          (make_and_save cli parsers big market client_addr streams net disk ask_codec import_file
            as_ipld ddir w).0
  unfolding make_and_save
  make_and_save-IsFast unregistered ddir w =
      bind-Succeeds IsFast (λ v. (require "please specify file to make deal for" cli.first_arg, v))
        _ w
        λ path w1.
          bind-Succeeds IsFast (λ v. (parse_miner parsers (cli.flag "miner"), v)) _ w1
            λ miner w2. bind-Succeeds IsFast (cli.set_up ddir) _ w2 λ done w3.
              bind-Succeeds IsFast cli.client _ w3 λ ready w4.
                bind-Succeeds IsFast (import_file path) _ w4 λ obj w5.
                  bind-Succeeds IsFast
                    (wrapping (str_append "getting ask from storage provider " miner)
                      (get_ask streams net ask_codec miner))
                    _ w5
                    λ ask w6.
                      Succeeds-after-Succeeds IsFast (λ net. net.fast_retrieval ≡ true)
                        (make_deal big market client_addr miner obj
                          (if cli.bool_flag "verified" then ask.verified_price else ask.price)
                          ask.min_piece_size duration (cli.bool_flag "verified")
                          (cli.bool_flag "remove-unsealed") w6).0
                        _ _
                        (make_deal-IsFast miner obj _ ask.min_piece_size (cli.bool_flag "verified")
                          (cli.bool_flag "remove-unsealed") w6
                          (unregistered "remove-unsealed" refl))
                        λ proposal fast w7.
                          bind-Succeeds IsFast
                            (λ v. (
                              or_wrap "failed to compute deal proposal ipld node"
                                  (as_ipld proposal),
                              v,
                            ))
                            _ w7
                            λ propcid w8.
                              bind-Succeeds IsFast (save_deal_proposal disk ddir propcid proposal) _
                                w8
                                λ saved w9.
                                  bind-Succeeds IsFast (deal_protocol_for_miner net miner) _ w9
                                    λ proto w10. fast
