-- ===== src/Recovery/Listed.antt =====
-- recoverVirtualServersByName: what it finds.
use garden_extension_f5_loca.VirtualServers
use garden_extension_f5_loca.Model
use garden_extension_f5_loca.Vips
use mathlib.Core.Path.{subst}
use garden_extension_f5_loca.Prelude.{
  All, Bool-cases, List, Option, Option-cases, String, [], ap, arith, eq_iff, inl, inr, int_eq,
  nat_eq, none, refl, some, string_eq, sym, true, ◌==◌, ◌∙◌, ◌∷◌, ◌≡◌, ◌≢◌, ◌⊎◌,
}
use garden_extension_f5_loca.Cmp.{
  Client, Cmp, Event, Vip, VirtualServer, is_read, listed_vips, listed_virtual_servers,
}
use garden_extension_f5_loca.Dict.{All-insert}
use garden_extension_f5_loca.Exec.{Result, err, ok, pure}
use garden_extension_f5_loca.Exec.Ensures.{
  Ensures, Ensures-bind, Ensures-call, Ensures-if, Ensures-imp, Ensures-lift, Ensures-pure,
  Ensures-raise,
}
use garden_extension_f5_loca.Recovery.{
  Found, Recovered, add_found, by_address, by_vip_id, collect_found, find_listener, find_their_vip,
  is_empty, match_address, matched_vip, note_found, only_vip, recover_virtual_servers_by_name,
  recovered_at, the_only_vip, with_vip_id,
}
use garden_extension_f5_loca.Text.{trim_space}
use garden_extension_f5_loca.Vips.{find_vip, list_vips}

abbrev pub IsOneOf : {A : Type 0} → A → List A → Type 0
IsOneOf a [] = ⊥
IsOneOf a (b ∷ bs) = (a ≡ b) ⊎ IsOneOf a bs

-- The listener is the only one with an id among those of its name.
abbrev pub IsUnique : List VirtualServer → String × VirtualServer → Type 0
IsUnique listeners (name, vs) =
    IsOneOf vs listeners
    × (VirtualServers.find_unique_by_name listeners name ≡ ok (trim_space vs.id))
    × (trim_space vs.id ≢ "")

find_listener-IsOneOf :
    (id : String) (listeners : List VirtualServer) (vs : VirtualServer)
    → find_listener id listeners ≡ some vs
    → IsOneOf vs listeners × (trim_space vs.id ≡ id)
unfolding find_listener
find_listener-IsOneOf id [] vs h = cc
find_listener-IsOneOf id (x ∷ listeners) vs h =
    ground (arith, find_listener-IsOneOf id listeners vs, eq_iff (trim_space x.id) id)

find_vip-IsOneOf :
    (id : String) (vips : List Vip) (vip : Vip) → find_vip id vips ≡ some vip → IsOneOf vip vips
unfolding find_vip
find_vip-IsOneOf id [] vip h = cc
find_vip-IsOneOf id (x ∷ vips) vip h = ground (arith, find_vip-IsOneOf id vips vip)

match_address-IsOneOf :
    (all vips : List Vip) (lb address : String) (matched : Option Vip) (vip : Vip)
    → ((v : Vip) → IsOneOf v vips → IsOneOf v all)
    → ((v : Vip) → matched ≡ some v → IsOneOf v all)
    → match_address lb address vips matched ≡ ok (some vip)
    → IsOneOf vip all
unfolding match_address
match_address-IsOneOf all [] lb address matched vip h m q = m vip (ground arith)
match_address-IsOneOf all (x ∷ vips) lb address matched vip h m q =
    elim (Bool-cases (trim_space x.address == address)) [
      | inl e ↦ elim (Option-cases matched) [
        | inl n ↦
            match_address-IsOneOf all vips lb address (some x) vip (λ v i. h v (inr i))
              (λ v s. subst (λ y. IsOneOf y all) (ground arith) (h x (inl refl))) (ground arith)
        | inr (y, n) ↦ absurd (ground arith)
      ]
      | inr e ↦
          match_address-IsOneOf all vips lb address matched vip (λ v i. h v (inr i)) m
            (ground arith)
    ]

module _ (listeners : List VirtualServer) where
  add_found-IsUnique :
      (name id : String) (o : Option VirtualServer) (found : Found)
      → find_listener id listeners ≡ o
      → VirtualServers.find_unique_by_name listeners name ≡ ok id
      → id ≢ ""
      → All (IsUnique listeners) found
      → All (IsUnique listeners) (add_found name o found)
  unfolding add_found
  add_found-IsUnique name id none found h u n f = f
  add_found-IsUnique name id (some vs) found h u n f =
      let (i, e) = find_listener-IsOneOf id listeners vs h in
      All-insert (IsUnique listeners) name vs found (i, u ∙ ap ok (sym e), λ z. n (sym e ∙ z)) f

  note_found-IsUnique :
      (name : String) (r : Result String) (found found' : Found)
      → VirtualServers.find_unique_by_name listeners name ≡ r
      → All (IsUnique listeners) found
      → note_found listeners name r found ≡ ok found'
      → All (IsUnique listeners) found'
  unfolding note_found
  note_found-IsUnique name (err e) found found' u f h = cc
  note_found-IsUnique name (ok id) found found' u f h = elim (Bool-cases (id == "")) [
    | inl e ↦ subst (All (IsUnique listeners)) (ground arith) f
    | inr e ↦
        subst (All (IsUnique listeners)) (ground arith)
          (add_found-IsUnique name id _ found refl u (ground (arith, eq_iff id "")) f)
  ]

  collect_found-IsUnique :
      (desired : List Model.VirtualServer) (r : Result Found) (found : Found)
      → ((f : Found) → r ≡ ok f → All (IsUnique listeners) f)
      → collect_found listeners desired r ≡ ok found
      → All (IsUnique listeners) found
  unfolding collect_found
  collect_found-IsUnique [] r found f h = f found h
  collect_found-IsUnique (want ∷ desired) (err e) found f h = cc
  collect_found-IsUnique (want ∷ desired) (ok old) found f h =
      collect_found-IsUnique desired _ found
        (λ new q. note_found-IsUnique want.name _ old new refl (f old refl) q) h

is_empty-nil : (found : Found) → is_empty found ≡ true → found ≡ []
is_empty-nil [] h = refl
is_empty-nil (_ ∷ _) h = cc

abbrev pub IsRead : Event → Type 0
IsRead e = is_read e ≡ true

-- Each listener is, in one listing of the service, the only one of its name that has an id.
abbrev pub IsListedFound : {W : Type 0} → Client W → String → Found → Type 0
IsListedFound {W} client lb found =
    (w : W) × (listeners : List VirtualServer) × ((client.list_virtual_servers lb w).0
      ≡ ok listeners)
    × All (IsUnique listeners) found

module _ {W : Type 0} (client : Client W) (lb subnet : String) where
  -- The id and the address are those of a VIP that CMP listed under the service.
  abbrev pub IsListedVip : String → String → Type 0
  IsListedVip id address =
      (w : W) × (vips : List Vip) × (vip : Vip) × ((client.list_vips lb subnet w).0 ≡ ok vips)
      × IsOneOf vip vips
      × (id ≡ trim_space vip.id)
      × (address ≡ trim_space vip.address)

  module _ (found : Found) where
    -- What was found is passed on, with a VIP that is listed.
    abbrev Settles : Cmp W Recovered → Type 0
    Settles m = Ensures IsRead (λ (r : Recovered). (r.0 ≡ found) × IsListedVip r.1 r.2) m

    at_vip :
        (w : W) (vips : List Vip) (vip : Vip)
        → (client.list_vips lb subnet w).0 ≡ ok vips
        → IsOneOf vip vips
        → Settles (pure (recovered_at found vip))
    at_vip w vips vip q i = Ensures-pure _ (refl, (w, vips, vip, q, i, refl, refl))

    the_only_vip-Settles :
        (w : W) (vips : List Vip)
        → (client.list_vips lb subnet w).0 ≡ ok vips
        → Settles (the_only_vip client lb subnet found vips)
    unfolding the_only_vip
    the_only_vip-Settles w [] q = Ensures-raise _
    the_only_vip-Settles w (vip ∷ []) q = at_vip w (vip ∷ []) vip q (inl refl)
    the_only_vip-Settles w (_ ∷ _ ∷ _) q = Ensures-raise _

    listing :
        Ensures IsRead
          (λ vips. (w : W) × ((client.list_vips lb subnet w).0 ≡ ok vips))
          (Vips.list_vips client lb subnet)
    listing = Ensures-call _ (listed_vips lb subnet) λ r. refl

    only_vip-Settles : Settles (only_vip client lb subnet found)
    unfolding only_vip
    only_vip-Settles = Ensures-bind _ _ listing λ vips (w, q). the_only_vip-Settles w vips q

    matched_vip-Settles :
        (w : W) (vips : List Vip) (o : Option Vip)
        → (client.list_vips lb subnet w).0 ≡ ok vips
        → ((vip : Vip) → o ≡ some vip → IsOneOf vip vips)
        → Settles (matched_vip client lb subnet found o)
    unfolding matched_vip
    matched_vip-Settles w vips none q h = only_vip-Settles
    matched_vip-Settles w vips (some vip) q h = at_vip w vips vip q (h vip refl)

    by_address-Settles :
        (addresses : List String) → Settles (by_address client lb subnet found addresses)
    unfolding by_address
    by_address-Settles [] = only_vip-Settles
    by_address-Settles (address ∷ []) = Ensures-bind _ _ listing λ vips (w, q).
        Ensures-bind _ _ (Ensures-lift (match_address lb address vips none) λ o m. m) λ o m.
          matched_vip-Settles w vips o q λ vip s.
            match_address-IsOneOf vips vips lb address none vip (λ v i. i) (λ v n. cc) (m ∙ ap ok s)
    by_address-Settles (_ ∷ _ ∷ _) = Ensures-raise _

    by_vip_id-Settles :
        (w : W) (vips : List Vip) (vs : VirtualServer) (o : Option Vip)
        → (client.list_vips lb subnet w).0 ≡ ok vips
        → ((vip : Vip) → o ≡ some vip → IsOneOf vip vips)
        → Settles (by_vip_id client lb subnet found vs o)
    unfolding by_vip_id
    by_vip_id-Settles w vips vs none q h = Ensures-raise _
    by_vip_id-Settles w vips vs (some vip) q h = at_vip w vips vip q (h vip refl)

    find_their_vip-Settles :
        (o : Option VirtualServer) → Settles (find_their_vip client lb subnet found o)
    unfolding find_their_vip
    find_their_vip-Settles none = by_address-Settles _
    find_their_vip-Settles (some vs) =
        Ensures-bind _ _ listing
          λ vips (w, q). by_vip_id-Settles w vips vs _ q λ vip s. find_vip-IsOneOf _ vips vip s

  -- What a recovery answers: listeners that CMP listed under the service, each the only one of its name
  -- that has an id, with the id and the address of a VIP that CMP listed there; or nothing at all.
  abbrev pub IsRecovered : Recovered → Type 0
  IsRecovered (found, id, address) =
      IsListedFound client lb found
      × (((found ≡ []) × (id ≡ "") × (address ≡ "")) ⊎ IsListedVip id address)

-- A recovery only reads. Whatever CMP answers, the listeners that it returns are ones that CMP listed under
-- the service, each with an id that is not blank and that the search by its name gives; and it returns
-- no listener and no VIP, or the id and the address of a VIP that CMP listed there.
pub recover_virtual_servers_by_name-IsRecovered :
    {W : Type 0} (client : Client W) (lb subnet : String) (desired : List Model.VirtualServer)
    → Ensures IsRead
        (IsRecovered client lb subnet)
        (recover_virtual_servers_by_name client lb subnet desired)
unfolding recover_virtual_servers_by_name
recover_virtual_servers_by_name-IsRecovered client lb subnet desired =
    Ensures-bind _ _
      (Ensures-call (client.list_virtual_servers lb) (listed_virtual_servers lb) λ r. refl)
      λ listeners (w, q).
        Ensures-bind _ _
          (Ensures-lift (collect_found listeners desired (ok [])) λ found c.
            collect_found-IsUnique listeners desired (ok []) found
              (λ f e. subst (All (IsUnique listeners)) {x = []} (ground arith) tt) c)
          λ found u.
            let answered : IsListedFound client lb found = (w, listeners, q, u) in
            Ensures-if (is_empty found) _ _
              (λ e. Ensures-pure _ (answered, inl (is_empty-nil found e, refl, refl)))
              λ e.
                Ensures-imp _
                  (λ r (s, v). (subst (IsListedFound client lb) (sym s) answered, inr v))
                  (find_their_vip-Settles client lb subnet found (with_vip_id found))
