-- ===== src/Status/Tests.antt =====
-- Tests and witnesses for the status reply, with insertion sort for `sort.Slice`.
use mathlib.Core.Logic.Or
use mathlib.Core.List.{Mem, Perm, eq-or-mem_of_mem-cons, not-mem-nil}
use mathlib.Core.List.Pairwise
use mathlib.Core.List.Perm
use dock.Base.{
  ◌≡◌, ◌↔◌, refl, ap, ◌∙◌, inl, inr, Bool, List, [], ◌∷◌, none, Bytes, Bytes_eq, codes, join,
  bytes_lt, bytes_eq, bytes_ge_trans, bytes_lt_asymm, map, lookup, insert, delete, Bool-cases,
  if◌then◌else◌,
}
use dock.Base.Sorted.{Ascending, SortsBy}
use dock.Shore.{ShoreConnection, new_connection}
use dock.Registry.{ShoreRegistry, new_shore_registry, register, list_by_owner}
use dock.Registry.Invariant.{IsValid}
use dock.Registry.Lifecycle.{connects, step, Reachable, start, next, Reachable-IsValid}
use dock.Http.{Request}
use dock.Http.Writer.{new_writer}
use dock.Status.{ShoreStatus, StatusReply, name_less, status_reply, status_handler}
use dock.Status.Reply.{Describes, status_handler_order, status_reply_lem}

insert_by :
    (ShoreConnection → ShoreConnection → Bool)
    → ShoreConnection
    → List ShoreConnection
    → List ShoreConnection
insert_by less s [] = s ∷ []
insert_by less s (t ∷ l) = let rest = insert_by less s l in if less t s then t ∷ rest else s ∷ t ∷ l

insertion_sort :
    (ShoreConnection → ShoreConnection → Bool) → List ShoreConnection → List ShoreConnection
unfolding insert_by
insertion_sort less [] = []
insertion_sort less (s ∷ l) = insert_by less s (insertion_sort less l)

insert_by-perm :
    (s : ShoreConnection) (l : List ShoreConnection) → Perm (insert_by name_less s l) (s ∷ l)
unfolding insert_by
insert_by-perm s [] = Perm.rfl
insert_by-perm s (t ∷ l) = elim (Bool-cases (name_less t s)) [
  | inl y ↦ rw y (Perm.trans (Perm.cons t (insert_by-perm s l)) (Perm.swap s t l))
  | inr n ↦ rw n Perm.rfl
]

insert_by-Ascending :
    (s : ShoreConnection) (l : List ShoreConnection)
    → Ascending name_less l
    → Ascending name_less (insert_by name_less s l)
unfolding insert_by name_less
insert_by-Ascending s [] h = Pairwise.cons (λ b m. absurd (not-mem-nil m)) Pairwise.nil
insert_by-Ascending s (t ∷ l) (Pairwise.cons below h) = elim (Bool-cases (bytes_lt t.name s.name)) [
  | inl y ↦ rw y (
      Pairwise.cons
        (λ b m.
          Or.elim (hlevel) (eq-or-mem_of_mem-cons ((Perm.mem_iff (insert_by-perm s l)).0 m))
            (λ e.
              ap (λ (x : ShoreConnection). bytes_lt x.name t.name) e
              ∙ bytes_lt_asymm t.name s.name y)
            (below b))
        (insert_by-Ascending s l h))
  | inr n ↦ rw n (
      Pairwise.cons
        (λ b m.
          Or.elim (hlevel) (eq-or-mem_of_mem-cons m)
            (λ e. ap (λ (x : ShoreConnection). bytes_lt x.name s.name) e ∙ n)
            (λ later. bytes_ge_trans b.name t.name s.name (below b later) n))
        (Pairwise.cons below h))
]

insertion_sort-perm : (l : List ShoreConnection) → Perm (insertion_sort name_less l) l
unfolding insertion_sort
insertion_sort-perm [] = Perm.rfl
insertion_sort-perm (s ∷ l) =
    Perm.trans (insert_by-perm s (insertion_sort name_less l)) (Perm.cons s (insertion_sort-perm l))

insertion_sort-Ascending :
    (l : List ShoreConnection) → Ascending name_less (insertion_sort name_less l)
unfolding insertion_sort
insertion_sort-Ascending [] = Pairwise.nil
insertion_sort-Ascending (s ∷ l) =
    insert_by-Ascending s (insertion_sort name_less l) (insertion_sort-Ascending l)

insertion_sort-SortsBy : SortsBy name_less (insertion_sort name_less)
insertion_sort-SortsBy = record { perm = insertion_sort-perm; ascending = insertion_sort-Ascending }

abbrev ada : Bytes
ada = codes "ada"

abbrev den : ShoreConnection
unfolding new_connection
den = new_connection (codes "den") ada [] [] 1

abbrev attic : ShoreConnection
unfolding new_connection
attic = new_connection (codes "attic") ada [] [] 2

both_Reachable : Reachable (
    step
      (step new_shore_registry (connects (codes "attic") ada [] [] 2))
      (connects (codes "den") ada [] [] 1))
both_Reachable =
    next (next start (connects (codes "attic") ada [] [] 2)) (connects (codes "den") ada [] [] 1)

abbrev both : ShoreRegistry
both = record { heap = attic ∷ den ∷ []; shores = (codes "den", 1) ∷ (codes "attic", 0) ∷ [] }

both-eq :
    step
      (step new_shore_registry (connects (codes "attic") ada [] [] 2))
      (connects (codes "den") ada [] [] 1)
    ≡ both
unfolding step register new_shore_registry new_connection lookup insert delete bytes_eq
both-eq = refl

both-IsValid : IsValid both
unfolding new_connection
both-IsValid = rw both-eq at (Reachable-IsValid both_Reachable)

-- The same with the map in another order.
abbrev turned : ShoreRegistry
turned = record { heap = attic ∷ den ∷ []; shores = (codes "attic", 0) ∷ (codes "den", 1) ∷ [] }

abbrev req : Request
req = record {
  method = codes "GET";
  path = codes "/status";
  raw_query = [];
  header = [];
  cookies = [];
  remote_addr = codes "1.2.3.4:5";
  body = none;
  user = ada;
}

abbrev names : StatusReply → Bytes
names reply = join (codes ",") (map (λ (u : ShoreStatus). u.name) reply.shores)

sorted_names : names (status_reply insertion_sort turned ada) ≡ codes "attic,den"
unfolding status_reply insertion_sort name_less bytes_lt bytes_eq join new_connection list_by_owner
sorted_names = refl

status_handler_order_example :
    status_handler insertion_sort names both req new_writer
    ≡ status_handler insertion_sort names turned req new_writer
status_handler_order_example =
    status_handler_order insertion_sort insertion_sort insertion_sort-SortsBy insertion_sort-SortsBy
      both turned names req new_writer both-IsValid refl
      (Perm.swap (codes "attic", 0) (codes "den", 1) [])

status_reply_lem_example :
    ((u : ShoreStatus)
      → Mem u (status_reply insertion_sort both ada).shores ↔ ∥ Describes both ada u ∥₁)
    × Ascending (λ u v. bytes_lt u.name v.name) (status_reply insertion_sort both ada).shores
    × ((status_reply insertion_sort both ada).user ≡ ada)
status_reply_lem_example =
    status_reply_lem insertion_sort insertion_sort-SortsBy both ada both-IsValid
