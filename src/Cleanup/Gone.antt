-- ===== src/Cleanup/Gone.antt =====
-- CleanupStack: what a cleanup that succeeds has seen.
use mathlib.Core.Path.{subst}
use garden_extension_f5_loca.Prelude.{
  All, Bool-cases, List, String, [], ap, arith, eq_iff, false, inl, inr, int_eq, nat_eq, not, some,
  string_eq, sym, true, ◌++◌, ◌==◌, ◌∷◌, ◌≡◌, ◌≢◌, ◌⊎◌,
}
use garden_extension_f5_loca.Cleanup.{
  CleanupRequest, CleanupResult, Clients, cleanup_lb_service_id, cleanup_stack, delete_all,
  delete_children, delete_virtual_server, each, gone, insert_sorted, sort_keys, sorted_resources,
  when, with_id,
}
use garden_extension_f5_loca.Cmp.{Cmp, Event, got_virtual_server}
use garden_extension_f5_loca.Dict.{lookup}
use garden_extension_f5_loca.Exec.{Done, err, is_not_found, ok, ◌>>=◌}
use garden_extension_f5_loca.Exec.Rules.{Steps, bind-Steps}
use garden_extension_f5_loca.Observed.{Bucket, ObservedGraph, ObservedResource, ensure_graph}
use garden_extension_f5_loca.Text.Order.{before}

-- The trace has a read of the listener that CMP answered with a 404.
abbrev pub IsGone : String → String → List Event → Type 0
IsGone lb id [] = ⊥
IsGone lb id (got_virtual_server on vs (err e) ∷ t) =
    ((on ≡ lb) × (vs ≡ id) × (is_not_found e ≡ true)) ⊎ IsGone lb id t
IsGone lb id (_ ∷ t) = IsGone lb id t

IsGone-later : (lb id : String) (e : Event) (t : List Event) → IsGone lb id t → IsGone lb id (e ∷ t)
IsGone-later lb id (got_virtual_server on vs (err e)) t h = inr h
IsGone-later lb id (got_virtual_server on vs (ok x)) t h = h
IsGone-later lb id _ t h = h

IsGone-right : (lb id : String) (s t : List Event) → IsGone lb id t → IsGone lb id (s ++ t)
IsGone-right lb id [] t h = h
IsGone-right lb id (e ∷ s) t h = IsGone-later lb id e (s ++ t) (IsGone-right lb id s t h)

IsGone-left : (lb id : String) (s t : List Event) → IsGone lb id s → IsGone lb id (s ++ t)
IsGone-left lb id [] t h = absurd h
IsGone-left lb id (got_virtual_server on vs (err e) ∷ s) t (inl h) = inl h
IsGone-left lb id (got_virtual_server on vs (err e) ∷ s) t (inr h) = inr (IsGone-left lb id s t h)
IsGone-left lb id (got_virtual_server on vs (ok x) ∷ s) t h = IsGone-left lb id s t h
IsGone-left lb id (_ ∷ s) t h = IsGone-left lb id s t h

module _ {W : Type 0} (d : Clients W) (g : ObservedGraph) (lb : String) where
  delete_virtual_server-IsGone :
      (vs : ObservedResource) (w : W) (u : Done)
      → (delete_virtual_server d g lb vs w).reply ≡ ok u
      → IsGone lb vs.external_id (delete_virtual_server d g lb vs w).trace
  unfolding delete_virtual_server gone ◌>>=◌
  delete_virtual_server-IsGone vs w u h = ground arith

  abbrev AllGone : List ObservedResource → List Event → Type 0
  AllGone xs t = All (λ vs. IsGone lb vs.external_id t) xs

  AllGone-right :
      (xs : List ObservedResource) (s t : List Event) → AllGone xs t → AllGone xs (s ++ t)
  AllGone-right [] s t h = tt
  AllGone-right (vs ∷ xs) s t h = (IsGone-right lb vs.external_id s t h.0, AllGone-right xs s t h.1)

  AllGone-left :
      (xs : List ObservedResource) (s t : List Event) → AllGone xs s → AllGone xs (s ++ t)
  AllGone-left [] s t h = tt
  AllGone-left (vs ∷ xs) s t h = (IsGone-left lb vs.external_id s t h.0, AllGone-left xs s t h.1)

  bind-AllGone :
      {A B : Type 0} (xs : List ObservedResource) (m : Cmp W A) (f : A → Cmp W B) (w : W) (b : B)
      → (s : Steps m f w b) → AllGone xs (m w).trace ⊎ AllGone xs (f s.value (m w).world).trace
      → AllGone xs (◌>>=◌ m f w).trace
  bind-AllGone xs m f w b s (inl h) = rw s.trace (AllGone-left xs (m w).trace _ h)
  bind-AllGone xs m f w b s (inr h) =
      rw s.trace (AllGone-right xs (m w).trace (f s.value (m w).world).trace h)

  each-AllGone :
      (xs : List ObservedResource) (w : W) (u : Done)
      → (each (delete_virtual_server d g lb) xs w).reply ≡ ok u
      → AllGone xs (each (delete_virtual_server d g lb) xs w).trace
  unfolding each
  each-AllGone [] w u k = tt
  each-AllGone (a ∷ xs) w u k =
      let first = delete_virtual_server d g lb a in
      let more = each (delete_virtual_server d g lb) xs in
      let s = bind-Steps first (λ _. more) w u k in
      let gone = delete_virtual_server-IsGone a w s.value s.first in
      (
        (bind-AllGone (a ∷ []) first (λ _. more) w u s (inl (gone, tt))).0,
        bind-AllGone xs first (λ _. more) w u s (inr (each-AllGone xs (first w).world u s.rest)),
      )

  delete_all-AllGone :
      (req : CleanupRequest) (w : W) (a : CleanupResult)
      → (delete_all d g lb req w).reply ≡ ok a
      → AllGone (sorted_resources g.virtual_servers) (delete_all d g lb req w).trace
  unfolding delete_all
  delete_all-AllGone req w a h =
      let vss = sorted_resources g.virtual_servers in
      let below = when d g lb (not req.aggregate_virtual_servers) (delete_children d g lb) in
      let children = bind-Steps below _ w a h in
      let w' = (below w).world in
      let listeners = bind-Steps (each (delete_virtual_server d g lb) vss) _ w' a children.rest in
      bind-AllGone vss below _ w a children (
        inr (
          bind-AllGone vss (each (delete_virtual_server d g lb) vss) _ w' a listeners
            (inl (each-AllGone vss w' listeners.value listeners.first))))

abbrev IsAmong : ObservedResource → List ObservedResource → Type 0
IsAmong r [] = ⊥
IsAmong r (s ∷ xs) = (r ≡ s) ⊎ IsAmong r xs

All-IsAmong :
    (P : ObservedResource → Type 0) (r : ObservedResource) (xs : List ObservedResource)
    → IsAmong r xs
    → All P xs
    → P r
All-IsAmong P r [] i h = absurd i
All-IsAmong P r (s ∷ xs) (inl e) h = subst P (sym e) h.0
All-IsAmong P r (s ∷ xs) (inr i) h = All-IsAmong P r xs i h.1

-- The entry stands somewhere in the bucket.
abbrev Holds : String → ObservedResource → Bucket → Type 0
Holds key r [] = ⊥
Holds key r ((k, s) ∷ bucket) = ((k ≡ key) × (r ≡ s)) ⊎ Holds key r bucket

lookup-Holds :
    (key : String) (r : ObservedResource) (bucket : Bucket)
    → lookup key bucket ≡ some r
    → Holds key r bucket
unfolding lookup
lookup-Holds key r [] h = absurd (ground arith)
lookup-Holds key r ((k, s) ∷ bucket) h = elim (Bool-cases (k == key)) [
  | inl e ↦ inl ((eq_iff k key).0 e, ground arith)
  | inr e ↦ inr (lookup-Holds key r bucket (ground arith))
]

Holds-insert_sorted :
    (key : String) (r : ObservedResource) (k : String) (s : ObservedResource) (bucket : Bucket)
    → ((k ≡ key) × (r ≡ s)) ⊎ Holds key r bucket
    → Holds key r (insert_sorted k s bucket)
unfolding insert_sorted
Holds-insert_sorted key r k s [] h = h
Holds-insert_sorted key r k s ((j, t) ∷ bucket) h = elim (Bool-cases (before j k)) [
  | inl e ↦ rw e (elim h [
    | inl here ↦ inr (Holds-insert_sorted key r k s bucket (inl here))
    | inr (inl first) ↦ inl first
    | inr (inr later) ↦ inr (Holds-insert_sorted key r k s bucket (inr later))
  ])
  | inr e ↦ rw e h
]

Holds-sort_keys :
    (key : String) (r : ObservedResource) (bucket : Bucket)
    → Holds key r bucket
    → Holds key r (sort_keys bucket)
unfolding sort_keys
Holds-sort_keys key r [] h = h
Holds-sort_keys key r ((k, s) ∷ bucket) (inl e) =
    Holds-insert_sorted key r k s (sort_keys bucket) (inl e)
Holds-sort_keys key r ((k, s) ∷ bucket) (inr h) =
    Holds-insert_sorted key r k s (sort_keys bucket) (inr (Holds-sort_keys key r bucket h))

with_id-IsAmong :
    (key : String) (r : ObservedResource) (bucket : Bucket)
    → r.external_id ≢ ""
    → Holds key r bucket
    → IsAmong r (with_id bucket)
unfolding with_id
with_id-IsAmong key r [] n h = h
with_id-IsAmong key r ((k, s) ∷ bucket) n (inl (same, e)) =
    let given : (s.external_id == "") ≡ false =
      ground (arith, eq_iff s.external_id "", ap (λ (x : ObservedResource). x.external_id) e) in
    rw given (inl e)
with_id-IsAmong key r ((k, s) ∷ bucket) n (inr h) =
    let rest = with_id-IsAmong key r bucket n h in
    elim (Bool-cases (s.external_id == "")) [ inl e ↦ rw e rest | inr e ↦ rw e (inr rest) ]

-- Every entry with an id is among the sorted resources.
sorted_resources-IsAmong :
    (key : String) (r : ObservedResource) (bucket : Bucket)
    → lookup key bucket ≡ some r
    → r.external_id ≢ ""
    → IsAmong r (sorted_resources bucket)
unfolding sorted_resources
sorted_resources-IsAmong key r bucket h n =
    with_id-IsAmong key r (sort_keys bucket) n
      (Holds-sort_keys key r bucket (lookup-Holds key r bucket h))

-- In a cleanup that succeeds and has a parent to work on, CMP has answered a read of each virtual server
-- that the graph records with an id, whatever its key, with a 404.
pub cleanup_stack-IsGone :
    {W : Type 0} (d : Clients W) (req : CleanupRequest) (w : W) (lb : String) (a : CleanupResult)
    → cleanup_lb_service_id (ensure_graph req.current) ≡ ok lb
    → lb ≢ ""
    → (cleanup_stack d req w).reply ≡ ok a
    → (key : String) (vs : ObservedResource)
    → lookup key (ensure_graph req.current).graph.virtual_servers ≡ some vs
    → vs.external_id ≢ ""
    → IsGone lb vs.external_id (cleanup_stack d req w).trace
unfolding cleanup_stack ◌>>=◌
cleanup_stack-IsGone d req w lb a q n h key vs found given =
    let g = (ensure_graph req.current).graph in
    let same : cleanup_stack d req w ≡ delete_all d g lb req w = ground (arith, eq_iff lb "") in
    rw same (
      All-IsAmong (λ vs. IsGone lb vs.external_id (delete_all d g lb req w).trace) vs
        (sorted_resources g.virtual_servers)
        (sorted_resources-IsAmong key vs g.virtual_servers found given)
        (delete_all-AllGone d g lb req w a (rw same at h)))
