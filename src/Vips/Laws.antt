-- ===== src/Vips/Laws.antt =====
-- What the VIP manager keeps, allocates and deletes.
use mathlib.Core.Path.{subst}
use garden_extension_f5_loca.Prelude.{
  All, Bool, Bool-cases, List, Option, String, [], arith, eq_iff, false, inl, inr, int_eq, nat_eq,
  none, refl, some, string_eq, sym, true, ◌==◌, ◌∷◌, ◌≡◌, ◌≢◌,
}
use garden_extension_f5_loca.Cmp.{Client, Event, Vip, created_vip, deleted_vip, is_read}
use garden_extension_f5_loca.Exec.{Result-cases, ok, ◌>>=◌}
use garden_extension_f5_loca.Nodes.Targets.{IsAmong}
use garden_extension_f5_loca.Text.{trim_space}
use garden_extension_f5_loca.Vips.{
  VipAnswer, allocate, ensure, find_address, find_vip, keep, recorded, refuse, validate_vip,
}

abbrev pub DeletesRecorded : String → String → Event → Type 0
DeletesRecorded lb id (deleted_vip on other _) = (on ≡ lb) × (other ≡ id)
DeletesRecorded lb id (created_vip on _ _) = on ≡ lb
DeletesRecorded lb id e = is_read e ≡ true

-- Whatever CMP answers, a run deletes no VIP but the recorded one on its LB service, and changes
-- nothing else than by creating a VIP there.
pub ensure-DeletesRecorded :
    {W : Type 0} (client : Client W) (lb_id subnet_id current_id current_address : String)
    (strict : Bool) (w : W)
    → All
        (DeletesRecorded lb_id (trim_space current_id))
        (ensure client lb_id subnet_id current_id current_address strict w).trace
unfolding ensure ◌>>=◌
ensure-DeletesRecorded client lb_id subnet_id current_id current_address strict w = ground arith

abbrev pub Reads : Event → Type 0
Reads e = is_read e ≡ true

-- With a supplied VIP the manager only reads, whatever CMP answers, also where the id is missing.
pub ensure_strict-Reads :
    {W : Type 0} (client : Client W) (lb_id subnet_id current_id current_address : String) (w : W)
    → All Reads (ensure client lb_id subnet_id current_id current_address true w).trace
unfolding ensure ◌>>=◌
ensure_strict-Reads client lb_id subnet_id current_id current_address w = ground arith

find_vip-IsAmong :
    (id : String) (vips : List Vip) (vip : Vip)
    → find_vip id vips ≡ some vip
    → IsAmong vip vips × (trim_space vip.id ≡ id)
unfolding find_vip
find_vip-IsAmong id [] vip h = absurd (ground arith)
find_vip-IsAmong id (v ∷ vips) vip h = elim (Bool-cases (trim_space v.id == id)) [
  | inl e ↦
      let same : v ≡ vip = ground arith in
      (inl (sym same), subst (λ v. trim_space v.id ≡ id) same ((eq_iff (trim_space v.id) id).0 e))
  | inr e ↦ let (among, own) = find_vip-IsAmong id vips vip (ground arith) in (inr among, own)
]

-- Where the returned VIP comes from: the recorded one, listed and accepted, or one just created.
pub data Source {W : Type 0} (client : Client W) (lb_id subnet_id current_id : String)
    (strict : Bool) (w : W) (id : String) : Type 0 where
  was_listed :
      (vips : List Vip) (vip : Vip)
      → (client.list_vips lb_id subnet_id w).0 ≡ ok vips
      → find_vip (trim_space current_id) vips ≡ some vip
      → IsAmong vip vips
      → trim_space vip.id ≡ trim_space current_id
      → validate_vip vip subnet_id strict ≡ ok tt
      → id ≡ trim_space current_id
      → Source client lb_id subnet_id current_id strict w id
  was_created :
      (w' : W) (vip : Vip)
      → (client.create_vip lb_id subnet_id w').0 ≡ ok vip
      → id ≡ trim_space vip.id
      → strict ≡ false
      → Source client lb_id subnet_id current_id strict w id

module _ {W : Type 0} (client : Client W) (lb_id subnet_id : String) where
  allocate-fresh :
      (w : W) (a : VipAnswer)
      → (allocate client lb_id subnet_id w).reply ≡ ok a
      → (vip : Vip) × ((client.create_vip lb_id subnet_id w).0 ≡ ok vip)
        × (a.0 ≡ trim_space vip.id)
        × (a.0 ≢ "")
  unfolding allocate find_address ◌>>=◌
  allocate-fresh w a h = elim (Result-cases (client.create_vip lb_id subnet_id w).0) [
    | inl (vip, q) ↦ (vip, q, ground arith, ground (arith, eq_iff (trim_space vip.id) ""))
    | inr (e, q) ↦ absurd (ground arith)
  ]

  module _ (current_id current_address : String) (strict : Bool) where
    abbrev Sourced : W → VipAnswer → Type 0
    Sourced w a = (a.0 ≢ "") × Source client lb_id subnet_id current_id strict w a.0

    allocate-Sourced :
        (w w' : W) (a : VipAnswer)
        → strict ≡ false
        → (allocate client lb_id subnet_id w').reply ≡ ok a
        → Sourced w a
    allocate-Sourced w w' a e h =
        let (vip, q, same, n) = allocate-fresh w' a h in (n, was_created w' vip q same e)

    recorded-Sourced :
        (w w' : W) (vips : List Vip) (o : Option Vip) (a : VipAnswer)
        → trim_space current_id ≢ ""
        → (client.list_vips lb_id subnet_id w).0 ≡ ok vips
        → find_vip (trim_space current_id) vips ≡ o
        → (recorded client lb_id subnet_id
            (trim_space current_id)
            (trim_space current_address)
            strict
            o
            w').reply
          ≡ ok a
        → Sourced w a
    unfolding recorded keep refuse ◌>>=◌
    recorded-Sourced w w' vips (some vip) a n l f h =
        let same : a.0 ≡ trim_space current_id = ground arith in
        let (among, own) = find_vip-IsAmong (trim_space current_id) vips vip f in
        (rw same n, was_listed vips vip l f among own (ground arith) same)
    recorded-Sourced w w' vips none a n l f h =
        allocate-Sourced w w' a (ground arith) (ground arith)

    ensure-Sourced :
        (w : W) (a : VipAnswer)
        → (ensure client lb_id subnet_id current_id current_address strict w).reply ≡ ok a
        → Sourced w a
    unfolding ensure ◌>>=◌
    ensure-Sourced w a h = elim (Bool-cases (trim_space current_id == "")) [
      | inl e ↦ allocate-Sourced w w a (ground arith) (ground arith)
      | inr e ↦ elim (Result-cases (client.list_vips lb_id subnet_id w).0) [
        | inl (vips, q) ↦
            recorded-Sourced w (client.list_vips lb_id subnet_id w).1 vips _ a
              (ground (arith, eq_iff (trim_space current_id) "")) q refl (ground arith)
        | inr (x, q) ↦ absurd (ground arith)
      ]
    ]

-- A returned VIP id is never blank, and is either the recorded id, under which a VIP is listed and
-- was accepted, or the id of a VIP that this run created, which happens only for a managed VIP.
pub ensure-Source :
    {W : Type 0} (client : Client W) (lb_id subnet_id current_id current_address : String)
    (strict : Bool) (w : W) (id address : String) (changed : Bool)
    → (ensure client lb_id subnet_id current_id current_address strict w).reply
      ≡ ok (id, address, changed)
    → (id ≢ "") × Source client lb_id subnet_id current_id strict w id
ensure-Source client lb_id subnet_id current_id current_address strict w id address changed h =
    ensure-Sourced client lb_id subnet_id current_id current_address strict w (id, address, changed)
      h
