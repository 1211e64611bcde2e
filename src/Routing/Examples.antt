-- ===== src/Routing/Examples.antt =====
-- A routing table of two rules: critical events to the pager, everything to the chat.
use alertloop.Base.{ℕ, true, false, none, some, List, [], ◌∷◌, ◌≡◌, refl, runes, Text}
use alertloop.Domain.Event.{Event, EventState, incident, info}
use alertloop.Domain.Delivery.{ChannelTarget, telegram, webhook}
use alertloop.Routing.Matcher.{Matcher, event_values, no_elements, matches}
use alertloop.Routing.Router.{Rule, Router, RoutingRule, new, unused_channels, unreachable_rules}
use alertloop.Routing.Router.First.{Unreachable, unreachable_rules-Unreachable}

abbrev pager : ChannelTarget
pager = record { channel = telegram; name = runes "pager" }

abbrev chat : ChannelTarget
chat = record { channel = webhook; name = runes "chat" }

abbrev spare : ChannelTarget
spare = record { channel = webhook; name = runes "spare" }

abbrev same : ℕ → ℕ
same c = c

abbrev to_pager : RoutingRule
to_pager = record {
  name = runes "urgent";
  match = record {
    types = [];
    severities = runes "Critical " ∷ [];
    min_severity = [];
    sources = [];
    categories = [];
  };
  channels = runes "pager" ∷ [];
}

abbrev to_chat : RoutingRule
to_chat = record {
  name = runes "rest";
  match = record { types = []; severities = []; min_severity = []; sources = []; categories = [] };
  channels = runes "chat" ∷ [];
}

abbrev conditions : List Text → Matcher
conditions severities = record {
  types = [];
  severities = severities;
  min_severity = 0;
  sources = [];
  categories = [];
}

abbrev urgent : Rule
urgent = record {
  name = runes "urgent";
  matcher = conditions (runes "critical" ∷ []);
  channels = pager ∷ [];
  names = runes "pager" ∷ [];
}

abbrev others : Rule
others = record {
  name = runes "rest";
  matcher = conditions [];
  channels = chat ∷ [];
  names = runes "chat" ∷ [];
}

abbrev table_of : List Rule → Router
table_of rules = record {
  configured = true;
  rules = rules;
  def = chat ∷ [];
  def_names = runes "chat" ∷ [];
  known = pager ∷ chat ∷ spare ∷ [];
}

-- an incident of severity info
abbrev mild : Event
mild = record {
  id = 1;
  event_type = incident;
  severity = info;
  state = EventState.new;
  source = runes "db";
  category = [];
  message = runes "slow";
  entity_type = [];
  entity_id = [];
  trace_id = [];
  dedupe_key = [];
  payload = [];
  created_at = 5;
  updated_at = 5;
  last_seen_at = 5;
  resolved_at = none;
}

passed_over : matches urgent.matcher (event_values same mild) ≡ false
unfolding matches event_values
passed_over = refl

taken : matches others.matcher (event_values same mild) ≡ true
unfolding matches event_values
taken = refl

names_one : no_elements (unreachable_rules (others ∷ urgent ∷ [])).1 ≡ false
unfolding unreachable_rules
names_one = refl

unreachable_rules-Unreachable_example : Unreachable (others ∷ urgent ∷ [])
unreachable_rules-Unreachable_example =
    unreachable_rules-Unreachable (others ∷ urgent ∷ []) names_one

built :
    new same
      (record { rules = to_pager ∷ to_chat ∷ []; default = runes "chat" ∷ [] })
      (pager ∷ chat ∷ spare ∷ [])
    ≡ some (table_of (urgent ∷ others ∷ []))
unfolding new
built = refl

spare_unused : unused_channels (table_of (urgent ∷ others ∷ [])) ≡ runes "spare" ∷ []
unfolding unused_channels
spare_unused = refl
