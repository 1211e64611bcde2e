-- ===== src/Store/Events/Inserts.antt =====
-- What the inserts of delivery attempts store when they succeed.
use alertloop.Base.{List, [], ◌∷◌, ◌≡◌, ◌∙◌, refl, ap, arith, sym}
use alertloop.Domain.Errors.{ok}
use alertloop.Domain.Delivery.{DeliveryAttempt}
use alertloop.Store.Schema.{Db}
use alertloop.Store.Session.{pure, Session, ◌>>=◌, try, write, tick}
use alertloop.Store.Session.Laws.{>>=-ok}
use alertloop.Store.Rows.{delivery_row}
use alertloop.Store.Events.{insert_delivery, insert_deliveries}

-- the table with rows put in front, the last of them first
abbrev pub put_rows : List DeliveryAttempt → Db → Db
put_rows [] d = d
put_rows (a ∷ l) d = put_rows l (record d { attempts = delivery_row a ∷ d.attempts })

pub insert_delivery-ok :
    (a : DeliveryAttempt) (s : Session)
    → (insert_delivery a s).0 ≡ ok tt
    → (insert_delivery a s).1
      ≡ record (tick s) { db = record s.db { attempts = delivery_row a ∷ s.db.attempts } }
unfolding insert_delivery ◌>>=◌ try write
insert_delivery-ok a s h = ground arith

pub insert_deliveries-ok :
    (l : List DeliveryAttempt) (s : Session)
    → (insert_deliveries l s).0 ≡ ok tt
    → (insert_deliveries l s).1.db ≡ put_rows l s.db
unfolding insert_deliveries pure
insert_deliveries-ok [] s h = refl
insert_deliveries-ok (a ∷ l) s h =
    let (u, first, e) = >>=-ok (insert_delivery a) (λ _. insert_deliveries l) s tt h in
    let stored = insert_delivery-ok a s first in
    rw e (
      insert_deliveries-ok l (insert_delivery a s).1 (ap (λ r. r.0) (sym e) ∙ h)
      ∙ ap (λ (x : Session). put_rows l x.db) stored)
