-- ===== src/Status/Reply.antt =====
-- What the reply lists, and that it is the same for every order in which the map may be visited.
use dock.Base.{
  ℕ, ◌≡◌, ◌↔◌, refl, ap, ◌∙◌, Bool, List, Option, Bytes, bytes_lt, bytes_lt_irrefl, bytes_lt_total,
  lookup, get_elem?, some, lookup_of_Memᴰ, Memᴰ_of_lookup, Bytes_eq,
}
use mathlib.Core.Logic.{∥∥₁_elim, ∥∥₁_map, ∥∥₁_prop}
use mathlib.Core.List.{Mem, Mem-prop, Perm, Pairwise-map, mem-map}
use mathlib.Core.List.Perm
use dock.Base.Sorted.{SortsBy, Ascending, NoTies, Ascending-eq_of_perm}
use dock.Shore.{ShoreConnection}
use dock.Registry.{ShoreRegistry, list_by_owner}
use dock.Registry.Invariant.{IsValid}
use dock.Registry.Lookup.{mem-list_by_owner_iff}
use dock.Registry.Owned.{list_by_owner-perm, list_by_owner-distinct}
use dock.Http.{Request}
use dock.Http.Writer.{Writer}
use dock.Status.{
  ShoreStatus, StatusReply, shore_status, statuses, name_less, status_reply, status_handler,
}

abbrev pub SortSlice : Type 0
SortSlice = (ShoreConnection → ShoreConnection → Bool) → List ShoreConnection → List ShoreConnection

ShoreConnection-set : IsSet ShoreConnection
ShoreConnection-set = hlevel

NoTies-list_by_owner :
    (r : ShoreRegistry) (owner : Bytes) → IsValid r → NoTies name_less (list_by_owner r owner)
unfolding name_less
NoTies-list_by_owner r owner v a b ma mb ab ba = ∥∥₁_elim ma (ShoreConnection-set a b) (λ da.
    ∥∥₁_elim mb (ShoreConnection-set a b)
      (λ db. list_by_owner-distinct r owner a b v da db (bytes_lt_total a.name b.name ab ba)))

module _ (sort sort' : SortSlice) (by : SortsBy name_less (sort name_less))
    (by' : SortsBy name_less (sort' name_less)) (r r' : ShoreRegistry) where
  sorted_alike :
      (owner : Bytes)
      → IsValid r
      → r.heap ≡ r'.heap
      → Perm r.shores r'.shores
      → sort name_less (list_by_owner r owner) ≡ sort' name_less (list_by_owner r' owner)
  unfolding name_less
  sorted_alike owner v same p =
      let l = list_by_owner r owner in
      let l' = list_by_owner r' owner in
      Ascending-eq_of_perm name_less (λ s. bytes_lt_irrefl s.name)
        (λ a b ma mb.
          NoTies-list_by_owner r owner v a b ((Perm.mem_iff (by.perm l)).0 ma)
            ((Perm.mem_iff (by.perm l)).0 mb))
        (by.ascending l) (by'.ascending l')
        (Perm.trans (by.perm l)
          (Perm.trans (list_by_owner-perm r r' owner same p) (Perm.symm (by'.perm l'))))

  -- Go visits a map in any order, and `sort.Slice` is not stable. The reply depends on neither: two
  -- valid registries with the same Shores under the same names get the same reply, by any two sorts
  -- that keep the promise of `sort.Slice`.
  pub status_handler_order :
      (encode : StatusReply → Bytes) (req : Request) (w : Writer)
      → IsValid r
      → r.heap ≡ r'.heap
      → Perm r.shores r'.shores
      → status_handler sort encode r req w ≡ status_handler sort' encode r' req w
  unfolding status_handler status_reply
  status_handler_order encode req w v same p =
      rw (status_handler, status_reply, sorted_alike req.user v same p)

-- A registered Shore of the user, whose entry is `u`.
abbrev pub Describes : ShoreRegistry → Bytes → ShoreStatus → Type 0
Describes r user u =
    (s : ShoreConnection) × (ref : ℕ) × (lookup s.name r.shores ≡ some ref)
    × (get_elem? r.heap ref ≡ some s)
    × (s.owner ≡ user)
    × (shore_status s ≡ u)

same_entry : (o : Option ShoreConnection) (s t : ShoreConnection) → o ≡ some s → o ≡ some t → s ≡ t
same_entry o s t p q = cc

module _ (sort : SortSlice) (by : SortsBy name_less (sort name_less)) (r : ShoreRegistry)
    (user : Bytes) where
  listed :
      (s : ShoreConnection)
      → Mem s (sort name_less (list_by_owner r user)) ↔ Mem s (list_by_owner r user)
  listed s = Perm.mem_iff (by.perm (list_by_owner r user))

  described :
      (u : ShoreStatus)
      → IsValid r
      → Mem u (status_reply sort r user).shores
      → ∥ Describes r user u ∥₁
  unfolding status_reply statuses
  described u v m = ∥∥₁_elim (mem-map.0 m) ∥∥₁_prop λ (s, there, same).
      ∥∥₁_map ((listed s).0 there) λ d.
        let (n, ref, entry, found, mine) = (mem-list_by_owner_iff r user s).0 d in
        let at_n = lookup_of_Memᴰ n ref r.shores v.keys entry in
        let (t, found', named, _) = v.live n ref at_n in
        let name : s.name ≡ n =
          ap (λ (x : ShoreConnection). x.name) (same_entry (get_elem? r.heap ref) s t found found')
          ∙ named in
        (s, ref, ap (λ k. lookup k r.shores) name ∙ at_n, found, mine, same)

  describes : (u : ShoreStatus) → ∥ Describes r user u ∥₁ → Mem u (status_reply sort r user).shores
  unfolding status_reply statuses
  describes u h = ∥∥₁_elim h Mem-prop λ (s, ref, entry, found, mine, same). mem-map.1 ∣ (
    s,
    (listed s).1
        ∣ (mem-list_by_owner_iff r user s).1
          (s.name, ref, Memᴰ_of_lookup s.name ref r.shores entry, found, mine) ∣₁,
    same,
  ) ∣₁

  -- The reply for a user lists the registered Shores that belong to the user, all of them and no
  -- other, with what the registry knows of each, in ascending order of their names.
  pub status_reply_lem :
      IsValid r
      → ((u : ShoreStatus) → Mem u (status_reply sort r user).shores ↔ ∥ Describes r user u ∥₁)
        × Ascending (λ u u'. bytes_lt u.name u'.name) (status_reply sort r user).shores
        × ((status_reply sort r user).user ≡ user)
  unfolding status_reply statuses name_less shore_status
  status_reply_lem v = (
    λ u. (described u v, describes u),
    (Pairwise-map (λ a b. hlevel) shore_status).1 (by.ascending (list_by_owner r user)),
    refl,
  )
