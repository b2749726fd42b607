-- ===== src/Integrations/Outbound/Dispatch.antt =====
-- packages/integrations/outbound.py, `dispatch`: one result for each channel.
use operational_intelligence.Prelude.{◌≡◌, refl, ap, ◌∙◌, String, Bool, List, [], ◌∷◌, ◌++◌, map}
use operational_intelligence.Integrations.Outbound.{
  AlertDict, Channel, ChannelResult, Request, Posted, Mail, Sent, returned, raised, or_default,
  send_channel, channel_result, dispatch,
}

module _ (post : Request → Posted) (send_mail : (host : String) → Mail → Bool)
    (upper : String → String) where
  result_type :
      (ch_type : String) (sent : Sent)
      → (channel_result post send_mail upper ch_type sent).type ≡ ch_type
  result_type ch_type (returned b) = refl
  result_type ch_type (raised text) = refl

  -- The result of each channel has its type, in their order, and is what this channel alone gives:
  -- a channel that raises or has no known type keeps no other one back.
  pub dispatch-append :
      (channels more : List Channel) (alert : AlertDict)
      → (dispatch post send_mail upper (channels ++ more) alert
          ≡ dispatch post send_mail upper channels alert
            ++ dispatch post send_mail upper more alert)
        × (map (λ (r : ChannelResult). r.type) (dispatch post send_mail upper channels alert)
            ≡ map (λ (c : Channel). or_default c.type "unknown") channels)
  unfolding dispatch
  dispatch-append [] more alert = (refl, refl)
  dispatch-append (c ∷ channels) more alert =
      let (parts, types) = dispatch-append channels more alert in
      let ch_type = or_default c.type "unknown" in
      let sent = send_channel post send_mail upper ch_type c alert in
      (
        ap (λ rs. channel_result post send_mail upper ch_type sent ∷ rs) parts,
        ap
              (λ t.
                t
                ∷ map (λ (r : ChannelResult). r.type)
                    (dispatch post send_mail upper channels alert))
              (result_type ch_type sent)
            ∙ ap (λ ts. ch_type ∷ ts) types,
      )
