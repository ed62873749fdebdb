-- ===== src/Alerts/Delivery.antt =====
-- internal/servernotify/notify.go: the delivery of one notice to a team's channels, and
-- `notifyAll` of internal/task/alerts/notification.go, which calls it.
pub mod Laws
use text.Mathlib.Text.{◌==◌ as str_eq}
use mosona_manager.Alerts.Types.{NotificationDelivery, TeamNotification}
use mosona_manager.Prelude.{
  Bool, List, [], bytes, contains, false, if◌then◌else◌, not, true, ℕ, ◌&&◌, ◌++◌, ◌+◌, ◌||◌, ◌∷◌,
}

-- What lies outside: the e-mail template, the two transports by the target (true is a success),
-- and the state of the context before the n-th channel.
pub record Transport : Type 0 where
  pub email_content : Bool
  pub send_email : List ℕ → Bool
  pub send_shoutrrr : List ℕ → Bool
  pub cancelled : ℕ → Bool

abbrev pub nothing : NotificationDelivery
nothing = record { attempted = false; delivered = false }

-- the target that a Telegram channel is sent to
unfoldable pub with_parse_mode : List ℕ → List ℕ
unfolding contains
with_parse_mode target =
    if contains target (bytes "telegram://") && not (contains target (bytes "parsemode="))
    then (if contains target (bytes "?")
        then target ++ bytes "&parsemode=HTML"
        else target ++ bytes "?parsemode=HTML")
    else target

-- one turn of the loop: the `switch` on the channel's module
unfoldable pub deliver_one :
    Transport → TeamNotification → NotificationDelivery → NotificationDelivery
unfolding with_parse_mode
deliver_one net n delivery =
    if str_eq n.module_name "email"
    then record {
      attempted = true;
      delivered = delivery.delivered || (net.email_content && net.send_email n.target);
    }
    else if str_eq n.module_name "shoutrrr"
    then record {
      attempted = true;
      delivered = delivery.delivered || net.send_shoutrrr (with_parse_mode n.target);
    }
    else delivery

-- the loop, at its i-th channel
unfoldable pub deliver_from :
    Transport → ℕ → List TeamNotification → NotificationDelivery → NotificationDelivery
deliver_from net i [] delivery = delivery
deliver_from net i (n ∷ ns) delivery =
    let rest = deliver_from net (i + 1) ns (deliver_one net n delivery) in
    if net.cancelled i then delivery else rest

-- `Deliver`
unfoldable pub deliver : Transport → List TeamNotification → NotificationDelivery
deliver net [] = nothing
deliver net (n ∷ ns) =
    let sent = deliver_from net 1 (n ∷ ns) nothing in if net.cancelled 0 then nothing else sent

-- `notifyAll`, whose context is never cancelled
unfoldable pub notify_all : Transport → List TeamNotification → NotificationDelivery
notify_all net [] = nothing
notify_all net (n ∷ ns) = deliver (record net { cancelled = λ _. false }) (n ∷ ns)
