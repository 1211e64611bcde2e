-- ===== src/Config/Types.antt =====
-- internal/config/config.go: the settings. A duration is its nanoseconds, an int that is 0 or more a
-- number, and a rate per second is counted in billionths.
use alertloop.Base.{ℕ, Bool, Option, List, Text}
use alertloop.Routing.Router.{RoutingConfig}

pub record ChatChannel : Type 0 where
  pub name : Text
  pub url : Text
  pub timeout : ℕ
  pub fallback : Text

pub record NtfyChannel : Type 0 where
  pub name : Text
  pub server : Text
  pub topic : Text
  pub token : Text
  pub username : Text
  pub password : Text
  pub timeout : ℕ
  pub fallback : Text

pub record PushoverChannel : Type 0 where
  pub name : Text
  pub token : Text
  pub user_key : Text
  pub timeout : ℕ
  pub fallback : Text

pub record EmailChannel : Type 0 where
  pub name : Text
  pub host : Text
  pub port : ℕ
  pub username : Text
  pub password : Text
  pub from : Text
  pub to : List Text
  pub starttls : Bool
  pub tls : Bool
  pub timeout : ℕ
  pub fallback : Text

pub record TelegramChannel : Type 0 where
  pub name : Text
  pub bot_token : Text
  pub chat_id : Text
  pub api_base : Text
  pub proxy : Text
  pub timeout : ℕ
  pub fallback : Text

pub record WebhookChannel : Type 0 where
  pub name : Text
  pub url : Text
  pub secret : Text
  pub timeout : ℕ
  pub fallback : Text

pub record Channels : Type 0 where
  pub email : List EmailChannel
  pub telegram : List TelegramChannel
  pub webhook : List WebhookChannel
  pub slack : List ChatChannel
  pub teams : List ChatChannel
  pub discord : List ChatChannel
  pub ntfy : List NtfyChannel
  pub pushover : List PushoverChannel

-- `none` in `sources` is nil: every source
pub record ApiKey : Type 0 where
  pub key : Text
  pub scope : Text
  pub sources : Option (List Text)

pub record Logging : Type 0 where
  pub level : Text
  pub format : Text
  pub file : Text

pub record Database : Type 0 where
  pub driver : Text
  pub dsn : Text

pub record Worker : Type 0 where
  pub concurrency : ℕ
  pub poll_interval : ℕ
  pub max_attempts : ℕ
  pub base_backoff : ℕ
  pub max_backoff : ℕ

pub record RateLimit : Type 0 where
  pub enabled : Bool
  pub per_ip_per_second : ℕ
  pub per_ip_burst : ℕ
  pub ingest_per_second : ℕ
  pub ingest_burst : ℕ
  pub trusted_proxies : List Text

-- The warnings of the loader are left out.
pub record Config : Type 0 where
  pub addr : Text
  pub admin_token : Text
  pub public_url : Text
  pub api_keys : List ApiKey
  pub database : Database
  pub worker : Worker
  pub channels : Channels
  pub log : Logging
  pub rate_limit : RateLimit
  pub routing : Option RoutingConfig
  pub notify_on_resolve : Option Bool
  pub retention_days : ℕ
