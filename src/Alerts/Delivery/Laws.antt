-- ===== src/Alerts/Delivery/Laws.antt =====
-- What a delivery reports, and what it does to a Telegram target.
use text.Mathlib.Text.{◌==◌ as str_eq}
use mosona_manager.Alerts.Types.{NotificationDelivery, TeamNotification}
use mosona_manager.Alerts.Delivery.{
  Transport, nothing, with_parse_mode, deliver_one, deliver_from, deliver, notify_all,
}
use mosona_manager.Prelude.{
  Bool, List, [], arith, bytes, contains, contains-prepend, false, if◌then◌else◌, refl, true, ℕ,
  ◌&&◌, ◌+◌, ◌||◌, ◌∷◌, ◌≡◌,
}

-- a channel that the code knows
abbrev pub is_channel : TeamNotification → Bool
is_channel n = str_eq n.module_name "email" || str_eq n.module_name "shoutrrr"

-- a channel whose transport takes the notice
abbrev pub takes : Transport → TeamNotification → Bool
takes net n =
    if str_eq n.module_name "email"
    then net.email_content && net.send_email n.target
    else str_eq n.module_name "shoutrrr" && net.send_shoutrrr (with_parse_mode n.target)

pub any : (TeamNotification → Bool) → List TeamNotification → Bool
any p [] = false
any p (n ∷ ns) = p n || any p ns

abbrev live : Transport → Transport
live net = record net { cancelled = λ _. false }

deliver_from-live :
    (net : Transport) (i : ℕ) (ns : List TeamNotification) (d : NotificationDelivery)
    → deliver_from (live net) i ns d ≡ record {
      attempted = d.attempted || any is_channel ns;
      delivered = d.delivered || any (takes net) ns;
    }
unfolding deliver_from any deliver_one
deliver_from-live net i [] d = ground arith
deliver_from-live net i (n ∷ ns) d =
    ground (arith, deliver_from-live net (i + 1) ns (deliver_one (live net) n d))

-- The periodic evaluation's delivery tries every channel: it reports an attempt exactly when some
-- channel is an e-mail or a Shoutrrr one, and a delivery exactly when some channel's transport
-- took the notice.
pub notify_all_lem :
    (net : Transport) (ns : List TeamNotification)
    → notify_all net ns ≡ record { attempted = any is_channel ns; delivered = any (takes net) ns }
unfolding notify_all deliver any
notify_all_lem net [] = refl
notify_all_lem net (n ∷ ns) = deliver_from-live net 1 (n ∷ ns) nothing

-- Whatever the context does, a delivery is reported only together with an attempt.
deliver_from_attempted :
    (net : Transport) (i : ℕ) (ns : List TeamNotification) (d : NotificationDelivery)
    → (d.delivered ≡ true → d.attempted ≡ true)
    → (deliver_from net i ns d).delivered ≡ true
    → (deliver_from net i ns d).attempted ≡ true
unfolding deliver_from deliver_one
deliver_from_attempted net i [] d h e = h e
deliver_from_attempted net i (n ∷ ns) d h e =
    ground (arith, deliver_from_attempted net (i + 1) ns (deliver_one net n d))

pub delivered_attempted :
    (net : Transport) (ns : List TeamNotification)
    → (notify_all net ns).delivered ≡ true
    → (notify_all net ns).attempted ≡ true
unfolding notify_all deliver
delivered_attempted net [] h = cc
delivered_attempted net (n ∷ ns) h =
    deliver_from_attempted (live net) 1 (n ∷ ns) nothing (λ e. cc) h

-- Preparing a target twice is preparing it once: the parse mode is never added a second time.
pub with_parse_mode_idem :
    (target : List ℕ) → with_parse_mode (with_parse_mode target) ≡ with_parse_mode target
unfolding with_parse_mode contains
with_parse_mode_idem target = ground (
  arith,
  contains-prepend target (bytes "?parsemode=HTML") (bytes "parsemode=") refl,
  contains-prepend target (bytes "&parsemode=HTML") (bytes "parsemode=") refl,
)
