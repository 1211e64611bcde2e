-- ===== src/Api/Examples.antt =====
-- Requests through a trusted proxy, from this machine, and with a session.
use alertloop.Base.{
  ℕ, ◌*◌, ◌≤◌, ◌++◌, Bool, true, false, Option, none, some, List, [], ◌∷◌, Text, runes, text_eq,
  ◌≡◌, refl, if◌then◌else◌, arith, quotient,
}
use alertloop.Config.Checks.{Ip, v4, IpNet, Url}
use alertloop.Auth.Throttle.{Throttle, new_throttle, wait}
use alertloop.Store.Users.Tables.{User, SignIn, Conn}
use alertloop.Api.Console.{sign_in_allowed}
use alertloop.Api.RateLimit.{TokenBucket, allow, new_token_bucket, token}
use alertloop.Api.Proxies.{Request, client_ip, split, backwards}
use alertloop.Api.Proxies.Forged.{ends, forged_part-ignored}
use alertloop.Api.Access.{full_caller, admitted, session_or_key}
use alertloop.Api.Access.Admitted.{Admits, session_or_key-Admits}
use alertloop.Api.Accounts.{Server, LoginRequest, Times, handle_login}
use alertloop.Api.Accounts.Login.{SignedIn, handle_login-SignedIn, login_of, address_of}
use alertloop.Api.Accounts.Handlers.{SetupRequest, handle_setup}
use alertloop.Api.Accounts.Setup.{SetUp, handle_setup-SetUp}

-- the answers to calls at these times
allowed_at : List ℕ → TokenBucket → List Bool
unfolding allow
allowed_at [] b = []
allowed_at (now ∷ l) b = let (ok, c) = allow now b in ok ∷ allowed_at l c

-- A rate of 0.999999999 is a little late with the second token, and rounding gives it out.
rounded_up :
    allowed_at
      (0 ∷ 1 ∷ 1000000001 ∷ [])
      (new_token_bucket 0 (quotient (999999999 * token) 1000000000) 1)
    ≡ true ∷ false ∷ true ∷ []
unfolding allowed_at new_token_bucket quotient
rounded_up = refl

-- 127.0.0.1, 8.8.8.8 and nothing else
abbrev parse_ip : Text → Option Ip
unfolding text_eq
parse_ip t =
    if text_eq t (runes "127.0.0.1")
    then some (v4 2130706433)
    else if text_eq t (runes "8.8.8.8")
    then some (v4 134744072)
    else none

abbrev ip_text : Ip → Text
ip_text a = runes "ip"

abbrev no_port : Text → Option (Text × Text)
no_port t = none

abbrev no_url : Text → Option Url
no_url t = none

abbrev equal_text : Text → Text → Bool
unfolding text_eq
equal_text = text_eq

abbrev same_rune : ℕ → ℕ
same_rune c = c

abbrev same_text : Text → Text
same_text t = t

abbrev local_net : List IpNet
local_net = record { ip = v4 2130706432; ones = 8 } ∷ []

abbrev request : Request
request = record {
  remote_addr = runes "127.0.0.1";
  host = runes "localhost";
  tls = false;
  forwarded_for = [];
  real_ip = [];
  forwarded_host = [];
  forwarded_proto = [];
  console_header = runes "1";
  origin = [];
  method = runes "POST";
  forwarded = [];
  authorization = [];
  api_key = [];
  cookie = runes "s";
  user_agent = [];
}

abbrev hops : Text
hops = runes "8.8.8.8, 127.0.0.1"

hops_end : ends parse_ip ip_text no_port local_net (backwards (split b',' hops)) ≡ true
unfolding ends backwards split parse_ip
hops_end = refl

forged_part-ignored_example :
    client_ip parse_ip ip_text no_port local_net
      (record request { forwarded_for = runes "1.1.1.1" ++ (b',' ∷ hops) })
    ≡ client_ip parse_ip ip_text no_port local_net
        (record request { forwarded_for = runes "127.0.0.1" ++ (b',' ∷ hops) })
forged_part-ignored_example =
    forged_part-ignored parse_ip ip_text no_port local_net request (runes "1.1.1.1")
      (runes "127.0.0.1") hops hops_end

abbrev ann : User
ann = record {
  id = runes "1";
  login = runes "ann";
  password_hash = runes "secret";
  created_at = 1;
  disabled_at = none;
  last_login_at = none;
}

abbrev anns : SignIn
anns = record {
  id = runes "s";
  user_id = runes "1";
  created_at = 5;
  last_seen_at = 5;
  expires_at = 100;
  ip = [];
  user_agent = [];
}

abbrev conn : Conn
conn = record {
  accounts = record { users = ann ∷ []; sessions = anns ∷ [] };
  faults = λ n. false;
  postgres = false;
}

abbrev empty_conn : Conn
empty_conn = record conn { accounts = record { users = []; sessions = [] } }

ann_admitted :
    (session_or_key same_text same_rune parse_ip ip_text no_port no_url equal_text [] [] local_net
      20 request conn).0
    ≡ admitted full_caller
unfolding session_or_key
ann_admitted = refl

session_or_key-Admits_example :
    Admits same_text same_rune parse_ip ip_text no_port no_url equal_text [] [] local_net 20 request
      conn full_caller
session_or_key-Admits_example =
    session_or_key-Admits same_text same_rune parse_ip ip_text no_port no_url equal_text [] []
      local_net 20 request conn full_caller ann_admitted

abbrev as_is : Throttle → Throttle
as_is t = t

abbrev times : Times
times = record { waited = 10; failed_at = 11; started = 12 }

abbrev server : Server
server = record { conn = conn; throttle = new_throttle }

abbrev body : Option LoginRequest
body = some (record { login = runes " Ann"; password = runes "secret" })

ann_signed_in :
    (handle_login same_rune parse_ip ip_text no_port no_url equal_text same_text as_is equal_text
      times false
      (some (runes "t"))
      local_net
      request
      body
      server).0.cookie
    ≡ some (runes "t")
unfolding handle_login
ann_signed_in = refl

handle_login-SignedIn_example :
    SignedIn same_rune parse_ip ip_text no_port no_url equal_text same_text equal_text times
      local_net request body server
handle_login-SignedIn_example =
    handle_login-SignedIn same_rune parse_ip ip_text no_port no_url equal_text same_text as_is
      equal_text times false (some (runes "t")) local_net request body server (runes "t")
      ann_signed_in

abbrev derive : Text → Option Text
derive p = some p

abbrev first_body : Option SetupRequest
first_body =
    some
      (record { admin_token = runes "token"; login = runes "ann"; password = runes "twelve-runes" })

ann_set_up :
    (handle_setup same_rune parse_ip ip_text no_port no_url equal_text same_text
      (runes "token")
      derive
      (runes "1")
      10
      11
      (some (runes "t"))
      local_net
      request
      first_body
      empty_conn).0.cookie
    ≡ some (runes "t")
unfolding handle_setup
ann_set_up = refl

handle_setup-SetUp_example :
    SetUp same_rune parse_ip ip_text no_port no_url equal_text same_text
      (runes "token")
      request
      first_body
      empty_conn
handle_setup-SetUp_example =
    handle_setup-SetUp same_rune parse_ip ip_text no_port no_url equal_text same_text
      (runes "token") derive (runes "1") 10 11 (some (runes "t")) local_net request first_body
      empty_conn (runes "t") ann_set_up

abbrev blocked : Server
blocked = record server {
  throttle =
      record { login = runes "ann"; ip = runes "127.0.0.1"; failures = 7; until = 50; last = 9 }
      ∷ [];
}

abbrev from_ann : LoginRequest
from_ann = record { login = runes " Ann"; password = runes "secret" }

blocked_waits :
    1
    ≤ wait 10
        (login_of same_rune parse_ip ip_text no_port no_url equal_text same_text from_ann)
        (address_of same_rune parse_ip ip_text no_port no_url equal_text same_text local_net
          request)
        blocked.throttle
unfolding wait login_of address_of parse_ip
blocked_waits = omega arith

ann_allowed :
    sign_in_allowed same_rune parse_ip ip_text no_port no_url equal_text local_net request ≡ true
unfolding sign_in_allowed parse_ip
ann_allowed = refl
