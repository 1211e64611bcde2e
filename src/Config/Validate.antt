-- ===== src/Config/Validate.antt =====
-- internal/config/config.go: Validate and Fallbacks.
pub mod Seen
pub mod Names
use alertloop.Base.{
  ℕ, Bool, true, false, not, ◌&&◌, ◌||◌, Option, none, some, is_some, List, [], ◌∷◌, ◌++◌, map,
  Text, text_eq, runes, is_empty, if◌then◌else◌,
}
use alertloop.Routing.Matcher.{text_in, no_elements}
use alertloop.Config.Types.{
  Config, Channels, EmailChannel, TelegramChannel, WebhookChannel, ChatChannel, NtfyChannel,
  PushoverChannel, ApiKey,
}
use alertloop.Config.Checks.{
  Url, Ip, IpNet, check_http_url, check_public_url, parse_proxy_url, parse_trusted_proxies,
  slog_level, json_format,
}
use alertloop.Config.Table.{routing_valid}

-- the map of Fallbacks: a name that comes again replaces its entry
unfoldable pub put_fallback : Text → Text → List (Text × Text) → List (Text × Text)
unfolding text_eq
put_fallback name fb [] = (name, fb) ∷ []
put_fallback name fb ((n, f) ∷ l) =
    let rest = put_fallback name fb l in if text_eq n name then (n, fb) ∷ l else (n, f) ∷ rest

-- the closure `add`
unfoldable pub add_fallback : Text × Text → List (Text × Text) → List (Text × Text)
unfolding put_fallback is_empty
add_fallback (name, fb) m = if is_empty fb then m else put_fallback name fb m

unfoldable pub add_all : List (Text × Text) → List (Text × Text) → List (Text × Text)
unfolding add_fallback
add_all [] m = m
add_all (p ∷ l) m = add_all l (add_fallback p m)

-- each channel's name and fallback, in the order of the loops
unfoldable pub named_fallbacks : Channels → List (Text × Text)
named_fallbacks c =
    map (λ (e : EmailChannel). (e.name, e.fallback)) c.email
    ++ (map (λ (t : TelegramChannel). (t.name, t.fallback)) c.telegram
        ++ (map (λ (w : WebhookChannel). (w.name, w.fallback)) c.webhook
            ++ (map (λ (h : ChatChannel). (h.name, h.fallback)) (c.slack ++ (c.teams ++ c.discord))
                ++ (map (λ (n : NtfyChannel). (n.name, n.fallback)) c.ntfy
                    ++ map (λ (p : PushoverChannel). (p.name, p.fallback)) c.pushover))))

unfoldable pub fallbacks : Channels → List (Text × Text)
unfolding add_all named_fallbacks
fallbacks c = add_all (named_fallbacks c) []

-- a read of that map, where an absent key reads as ""
unfoldable pub fallback_name : List (Text × Text) → Text → Text
unfolding text_eq
fallback_name [] name = []
fallback_name ((n, f) ∷ l) name =
    let rest = fallback_name l name in if text_eq n name then f else rest

valid_driver : Text → Bool
unfolding text_eq
valid_driver d = text_eq d (runes "sqlite") || text_eq d (runes "postgres")

sources_ok : Text → Option (List Text) → Bool
unfolding text_eq text_in no_elements
sources_ok scope none = true
sources_ok scope (some l) =
    text_eq scope (runes "ingest") && not (no_elements l) && not (text_in l [])

unfoldable pub key_ok : ApiKey → Bool
unfolding sources_ok text_eq is_empty
key_ok k =
    not (is_empty k.key)
    && (text_eq k.scope (runes "ingest")
        || text_eq k.scope (runes "read")
        || text_eq k.scope (runes "full"))
    && sources_ok k.scope k.sources

unfoldable pub keys_ok : List ApiKey → Bool
unfolding key_ok
keys_ok [] = true
keys_ok (k ∷ l) = key_ok k && keys_ok l

-- the loops over the channels: checkName, then the channel's other checks; the result is `seen`
unfoldable pub check_names : List (Text × Bool) → List Text → Option (List Text)
unfolding is_empty text_in
check_names [] seen = some seen
check_names ((name, complete) ∷ l) seen =
    let rest = check_names l (name ∷ seen) in
    if is_empty name || text_in seen name || not complete then none else rest

-- the loop over the fallbacks, and `seen`
unfoldable pub fallbacks_ok : List Text → List (Text × Text) → Bool
unfolding text_eq text_in
fallbacks_ok seen [] = true
fallbacks_ok seen ((name, fb) ∷ l) = not (text_eq fb name) && text_in seen fb && fallbacks_ok seen l

unfoldable pub email_ok : EmailChannel → Bool
unfolding is_empty no_elements
email_ok e = not (is_empty e.host || is_empty e.from || no_elements e.to)

unfoldable pub webhook_ok : WebhookChannel → Bool
unfolding is_empty
webhook_ok w = not (is_empty w.url)

unfoldable pub pushover_ok : PushoverChannel → Bool
unfolding is_empty
pushover_ok p = not (is_empty p.token || is_empty p.user_key)

-- the checks that come before the channels
unfoldable pub settings_ok : Config → Bool
unfolding valid_driver is_empty keys_ok
settings_ok c =
    valid_driver c.database.driver && not (is_empty c.database.dsn) && keys_ok c.api_keys

same : Bool → Bool → Bool
same true b = b
same false b = not b

-- Validate is true for a nil error. Which of several errors it names is left out: the loop over the
-- chat channels is over a map, whose order Go leaves open.
module _ (table : ℕ → ℕ) (parse_url : Text → Option Url) (parse_cidr : Text → Option IpNet)
    (parse_ip : Text → Option Ip) where
  unfoldable pub telegram_ok : TelegramChannel → Bool
  unfolding parse_proxy_url is_empty
  telegram_ok t =
      not (is_empty t.bot_token || is_empty t.chat_id)
      && is_some (parse_proxy_url table parse_url t.proxy)

  unfoldable pub chat_ok : ChatChannel → Bool
  unfolding check_http_url is_empty
  chat_ok c = not (is_empty c.url) && check_http_url table parse_url c.url

  unfoldable pub ntfy_ok : NtfyChannel → Bool
  unfolding check_http_url is_empty same
  ntfy_ok n =
      not (is_empty n.topic)
      && check_http_url table parse_url n.server
      && not (not (is_empty n.token) && not (is_empty n.username))
      && same (is_empty n.username) (is_empty n.password)

  -- each channel's name, and whether its other checks pass
  unfoldable pub entries : Channels → List (Text × Bool)
  unfolding email_ok telegram_ok webhook_ok chat_ok ntfy_ok pushover_ok
  entries c =
      map (λ (e : EmailChannel). (e.name, email_ok e)) c.email
      ++ (map (λ (t : TelegramChannel). (t.name, telegram_ok t)) c.telegram
          ++ (map (λ (w : WebhookChannel). (w.name, webhook_ok w)) c.webhook
              ++ (map (λ (h : ChatChannel). (h.name, chat_ok h)) (c.slack ++ (c.teams ++ c.discord))
                  ++ (map (λ (n : NtfyChannel). (n.name, ntfy_ok n)) c.ntfy
                      ++ map (λ (p : PushoverChannel). (p.name, pushover_ok p)) c.pushover))))

  -- the checks of the single settings that follow the loops
  unfoldable pub others_ok : Config → Bool
  unfolding check_public_url parse_trusted_proxies slog_level json_format
  others_ok c =
      check_public_url table parse_url c.public_url
      && is_some (parse_trusted_proxies parse_cidr parse_ip c.rate_limit.trusted_proxies)
      && is_some (slog_level table parse_url c.log)
      && is_some (json_format table parse_url c.log)

  unfoldable pub routing_ok : Config → List Text → Bool
  unfolding routing_valid
  routing_ok c seen = elim c.routing [ none ↦ true | some r ↦ routing_valid table seen r ]

  -- what follows the loops, with the names that these have seen
  unfoldable pub rest_ok : Config → List Text → Bool
  unfolding fallbacks_ok fallbacks routing_ok others_ok
  rest_ok c seen = fallbacks_ok seen (fallbacks c.channels) && routing_ok c seen && others_ok c

  unfoldable pub validate : Config → Bool
  unfolding settings_ok check_names entries rest_ok
  validate c =
      settings_ok c
      && elim (check_names (entries c.channels) []) [ none ↦ false | some seen ↦ rest_ok c seen ]

-- the names of all channels
unfoldable pub channel_names : Channels → List Text
unfolding named_fallbacks
channel_names c = map (λ (p : Text × Text). p.0) (named_fallbacks c)
