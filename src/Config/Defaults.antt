-- ===== src/Config/Defaults.antt =====
-- internal/config/config.go: the defaults, and what Load fills in after the file is decoded.
use alertloop.Base.{
  ℕ, ◌*◌, ◌==◌, Bool, true, ◌||◌, none, some, [], map, Text, runes, is_empty, if◌then◌else◌,
}
use alertloop.Strings.{trim_space, trim_right_of, has_prefix, contains_text}
use alertloop.Worker.Options.{second, default_channel_timeout}
use alertloop.Config.Types.{
  Config, Channels, EmailChannel, TelegramChannel, WebhookChannel, ChatChannel, NtfyChannel,
  PushoverChannel, ApiKey,
}

abbrev per_second : ℕ → ℕ
per_second n = n * 1000000000

abbrev pub default_config : Config
default_config = record {
  addr = runes ":8080";
  admin_token = [];
  public_url = [];
  api_keys = [];
  database = record { driver = runes "sqlite"; dsn = runes "alertloop.db" };
  worker = record {
    concurrency = 2;
    poll_interval = 2 * second;
    max_attempts = 5;
    base_backoff = 30 * second;
    max_backoff = 1800 * second;
  };
  channels = record {
    email = [];
    telegram = [];
    webhook = [];
    slack = [];
    teams = [];
    discord = [];
    ntfy = [];
    pushover = [];
  };
  log = record { level = runes "info"; format = runes "text"; file = [] };
  rate_limit = record {
    enabled = true;
    per_ip_per_second = per_second 20;
    per_ip_burst = 40;
    ingest_per_second = per_second 100;
    ingest_burst = 200;
    trusted_proxies = [];
  };
  routing = none;
  notify_on_resolve = none;
  retention_days = 30;
}

unfoldable pub should_notify_on_resolve : Config → Bool
should_notify_on_resolve c = elim c.notify_on_resolve [ none ↦ true | some b ↦ b ]

abbrev pub default_smtp_port : ℕ
default_smtp_port = 587

unfoldable pub or_timeout : ℕ → ℕ
or_timeout t = if t == 0 then default_channel_timeout else t

unfoldable pub or_text : Text → Text → Text
unfolding is_empty
or_text d t = if is_empty t then d else t

unfoldable pub normal_email : EmailChannel → EmailChannel
unfolding or_timeout
normal_email c = record c {
  port = if c.port == 0 then default_smtp_port else c.port;
  timeout = or_timeout c.timeout;
}

unfoldable pub normal_telegram : TelegramChannel → TelegramChannel
unfolding or_timeout or_text
normal_telegram c = record c {
  api_base = or_text (runes "https://api.telegram.org") c.api_base;
  timeout = or_timeout c.timeout;
}

unfoldable pub normal_webhook : WebhookChannel → WebhookChannel
unfolding or_timeout
normal_webhook c = record c { timeout = or_timeout c.timeout }

unfoldable pub normal_chat : ChatChannel → ChatChannel
unfolding or_timeout
normal_chat c = record c { timeout = or_timeout c.timeout }

unfoldable pub normal_ntfy : NtfyChannel → NtfyChannel
unfolding or_timeout or_text
normal_ntfy c = record c {
  server = or_text (runes "https://ntfy.sh") c.server;
  timeout = or_timeout c.timeout;
}

unfoldable pub normal_pushover : PushoverChannel → PushoverChannel
unfolding or_timeout
normal_pushover c = record c { timeout = or_timeout c.timeout }

unfoldable pub normalize_channels : Channels → Channels
unfolding normal_email normal_telegram normal_webhook normal_chat normal_ntfy normal_pushover
normalize_channels c = record {
  email = map normal_email c.email;
  telegram = map normal_telegram c.telegram;
  webhook = map normal_webhook c.webhook;
  slack = map normal_chat c.slack;
  teams = map normal_chat c.teams;
  discord = map normal_chat c.discord;
  ntfy = map normal_ntfy c.ntfy;
  pushover = map normal_pushover c.pushover;
}

unfoldable pub infer_driver : Text → Text
unfolding has_prefix contains_text
infer_driver dsn =
    if has_prefix dsn (runes "postgres://")
      || has_prefix dsn (runes "postgresql://")
      || contains_text dsn (runes "host=")
    then runes "postgres"
    else runes "sqlite"

unfoldable pub normal_key : ApiKey → ApiKey
unfolding or_text trim_space
normal_key k = record k {
  scope = or_text (runes "full") k.scope;
  sources = elim k.sources [ none ↦ none | some l ↦ some (map trim_space l) ];
}

-- what Load does with the decoded settings
unfoldable pub complete : Config → Config
unfolding normalize_channels normal_key trim_space trim_right_of infer_driver or_text
complete c = record c {
  channels = normalize_channels c.channels;
  public_url = trim_right_of b'/' (trim_space c.public_url);
  api_keys = map normal_key c.api_keys;
  database = record c.database { driver = or_text (infer_driver c.database.dsn) c.database.driver };
}
