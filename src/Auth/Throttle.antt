-- ===== src/Auth/Throttle.antt =====
-- internal/auth/auth.go: Throttle. A duration is its nanoseconds; `order` is the order in which Go
-- visits the map, which it leaves open.
pub mod Delay
pub mod Bound
use alertloop.Base.{
  ℕ, suc, ◌+◌, ◌-◌, ◌*◌, ◌^◌, ltb, leb, Bool, true, false, not, ◌&&◌, none, some, List, [], ◌∷◌,
  Text, text_eq, length, select, find, update, if◌then◌else◌,
}
use alertloop.Worker.Options.{second}

pub record Entry : Type 0 where
  pub login : Text
  pub ip : Text
  pub failures : ℕ
  pub until : ℕ
  pub last : ℕ

abbrev pub Throttle : Type 0
Throttle = List Entry

abbrev pub free_failures : ℕ
free_failures = 5

abbrev pub base_delay : ℕ
base_delay = second

abbrev pub max_delay : ℕ
max_delay = 300 * second

abbrev pub forget_after : ℕ
forget_after = 3600 * second

abbrev pub max_tracked : ℕ
max_tracked = 10000

abbrev pub new_throttle : Throttle
new_throttle = []

unfoldable pub is_pair : Text → Text → Entry → Bool
unfolding text_eq
is_pair login ip e = text_eq e.login login && text_eq e.ip ip

-- Wait at the time `now`
unfoldable pub wait : ℕ → Text → Text → Throttle → ℕ
unfolding find is_pair
wait now login ip t = elim (find (is_pair login ip) t) [ none ↦ 0 | some e ↦ e.until - now ]

unfoldable pub idle : ℕ → Entry → Bool
idle now e = ltb (e.last + forget_after) now

-- the second loop of makeRoom
unfoldable pub drop_first : Throttle → Throttle
drop_first [] = []
drop_first (e ∷ t) =
    let rest = drop_first t in if ltb (length (e ∷ t)) max_tracked then e ∷ t else rest

unfoldable pub make_room : (Throttle → Throttle) → ℕ → Throttle → Throttle
unfolding drop_first select idle
make_room order now t =
    if ltb (length t) max_tracked then t else drop_first (order (select (λ e. not (idle now e)) t))

unfoldable pub min : ℕ → ℕ → ℕ
min a b = if leb a b then a else b

-- the delay after the failure that is `over` past the free ones, of 1 and more
unfoldable pub delay : ℕ → ℕ
unfolding min
delay over = if leb over 20 then min (base_delay * 2 ^ (over - 1)) max_delay else max_delay

-- the end of Fail, on the entry
unfoldable pub count_failure : ℕ → Entry → Entry
unfolding delay
count_failure now e =
    let n = suc e.failures in
    record e {
      failures = n;
      last = now;
      until = if ltb free_failures n then now + delay (n - free_failures) else e.until;
    }

unfoldable pub fresh : Text → Text → Entry
fresh login ip = record { login = login; ip = ip; failures = 0; until = 0; last = 0 }

unfoldable pub forget : ℕ → Entry → Entry
unfolding idle
forget now e = if idle now e then record e { failures = 0 } else e

unfoldable pub fail : (Throttle → Throttle) → ℕ → Text → Text → Throttle → Throttle
unfolding find update is_pair make_room count_failure fresh forget
fail order now login ip t = elim (find (is_pair login ip) t) [
  | none ↦ count_failure now (fresh login ip) ∷ make_room order now t
  | some e ↦ update (is_pair login ip) (λ x. count_failure now (forget now x)) t
]

unfoldable pub succeed : Text → Text → Throttle → Throttle
unfolding select is_pair
succeed login ip t = select (λ e. not (is_pair login ip e)) t
