-- ===== src/ChannelId/Tests.antt =====
-- A channel id of two short peer ids.
use filclient.Base.{◌≡◌, refl, arith}
use filclient.Strconv.{format_uint}
use filclient.Errors.{ok}
use filclient.ChannelId.{channel_id_from_string, channel_id_from_string-channel_text}

channel_id_from_string-channel_text_example :
    channel_id_from_string (λ s. ok s) "ab-c-12"
    ≡ ok (record { initiator = "ab"; responder = "c"; id = 12 })
unfolding format_uint
channel_id_from_string-channel_text_example =
    channel_id_from_string-channel_text (λ s. ok s) "ab" "c" "ab" "c" 12
      ((λ e. omega (arith, e)), ((λ e. omega (arith, e)), tt)) ((λ e. omega (arith, e)), tt) refl
      refl (omega arith)
