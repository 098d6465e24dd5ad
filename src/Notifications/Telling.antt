-- ===== src/Notifications/Telling.antt =====
-- A view that is told by mail, from the handler of the secret to the mail server.
use phantom_share.Prelude.{String, Bool, Option, if◌then◌else◌}
use phantom_share.Secrets.Guards.{is_given}
use phantom_share.Notifications.{message_of}
use phantom_share.Notifications.Messages.{Json, Mail, webhook_payload, text_or_empty}
use phantom_share.Notifications.Lanes.{Lane, Lanes, wait}

-- The lane of the webhooks after a view.
abbrev pub hooked : Json → String → Option String → String → Bool → Lane → Lane
hooked json secret_id webhook_url ip accepted l =
    if is_given webhook_url
    then if accepted
      then wait (message_of json (webhook_payload (text_or_empty webhook_url) secret_id ip)) l
      else l
    else l
