-- ===== src/Config/Examples.antt =====
-- A configuration of two channels and one rule, and runs of the checks on it.
use alertloop.Base.{
  ◌≤◌, ◌≢◌, is_empty, arith, ℕ, true, false, Option, none, some, List, [], ◌∷◌, Has, ◌≡◌, refl,
  Text, runes, inl,
}
use alertloop.Domain.Delivery.{ChannelTarget, email, webhook}
use alertloop.Routing.Router.{RoutingConfig, Router, target_names, new}
use alertloop.Config.Types.{Config, EmailChannel, WebhookChannel}
use alertloop.Config.Defaults.{default_config, complete}
use alertloop.Config.Checks.{Url, Ip, v4, IpNet}
use alertloop.Config.Validate.{validate, channel_names, named_fallbacks}
use alertloop.Config.Validate.Names.{validate-router}

abbrev same_rune : ℕ → ℕ
same_rune c = c

abbrev any_url : Text → Option Url
any_url raw = some (record {
  scheme = runes "https";
  host = runes "example.org";
  hostname = runes "example.org";
  port = [];
  path = runes "/";
  raw_query = [];
  force_query = false;
  fragment = [];
})

abbrev no_net : Text → Option IpNet
no_net raw = none

abbrev loopback : Text → Option Ip
loopback raw = some (v4 2130706433)

abbrev mail : EmailChannel
mail = record {
  name = runes "mail";
  host = runes "smtp.example.org";
  port = 0;
  username = [];
  password = [];
  from = runes "a@example.org";
  to = runes "b@example.org" ∷ [];
  starttls = true;
  tls = false;
  timeout = 0;
  fallback = runes "chat";
}

abbrev chat : WebhookChannel
chat = record {
  name = runes "chat";
  url = runes "https://example.org/";
  secret = [];
  timeout = 0;
  fallback = [];
}

abbrev to_chat : RoutingConfig
to_chat = record {
  rules =
      record {
        name = runes "billing";
        match = record {
          types = runes "incident" ∷ [];
          severities = [];
          min_severity = runes "warning";
          sources = runes "billing-*" ∷ [];
          categories = [];
        };
        channels = runes "chat" ∷ [];
      }
      ∷ [];
  default = runes "mail" ∷ runes "chat" ∷ [];
}

abbrev small : Config
small = complete (record default_config {
  api_keys = record { key = runes "k"; scope = []; sources = none } ∷ [];
  channels = record default_config.channels { email = mail ∷ []; webhook = chat ∷ [] };
  rate_limit = record default_config.rate_limit { trusted_proxies = runes "127.0.0.1" ∷ [] };
  routing = some to_chat;
})

abbrev targets : List ChannelTarget
targets =
    record { channel = email; name = runes "mail" }
    ∷ record { channel = webhook; name = runes "chat" }
    ∷ []

small_valid : validate same_rune any_url no_net loopback small ≡ true
unfolding validate complete
small_valid = refl

names_targets : target_names targets ≡ channel_names small.channels
unfolding target_names channel_names complete
names_targets = refl

mail_given : Has (runes "mail", runes "chat") (named_fallbacks small.channels)
unfolding named_fallbacks complete
mail_given = inl refl

given : is_empty (runes "chat") ≡ false
unfolding is_empty
given = refl

routing_given : small.routing ≡ some to_chat
unfolding complete
routing_given = refl

keeps_star : (c : ℕ) → 128 ≤ c → same_rune c ≢ b'*'
keeps_star c h e = ground arith

validate-router_example : (r : Router) × (new same_rune to_chat targets ≡ some r)
validate-router_example =
    validate-router same_rune any_url no_net loopback keeps_star small to_chat targets small_valid
      routing_given names_targets
