-- ===== src/Namespace/FirstClaim.antt =====
-- lib/namespace: a namespace belongs to whoever first made an admissible request for it.
use iam_pager.Base.{
  Text, Bool, List, [], ◌∷◌, Option, none, some, true, false, if◌then◌else◌, ◌==◌, ◌≡◌, refl, arith,
  Option-cases, Bool-cases, inl, inr, ◌&&◌,
}
use iam_pager.Base.Map.{get, get-put}
use iam_pager.Locator.{Locator, LocatorResolution, resolved, unresolved}
use iam_pager.Content.{Date}
use iam_pager.Namespace.{
  NamespaceReservation, ReserveRequest, Reservations, namespace_key, reserve, reserve_namespace,
  find, bare, reservation_of, PageActor, NamespaceAuthority, unreserved, owned, reserved_by_other,
  user_actor, guest_actor, resolve_authority, authority_over,
}

abbrev pub owner_of : Option NamespaceReservation → Option Text
owner_of none = none
owner_of (some r) = some r.owner_user_id

abbrev pub is_resolved : LocatorResolution → Bool
is_resolved (resolved l) = true
is_resolved (unresolved e) = false

abbrev earlier : Option Text → Option Text → Option Text
earlier none later = later
earlier (some owner) later = some owner

module _ (validate : Locator → LocatorResolution) where
  -- The requests made to the service one after the other, each with its time
  unfoldable pub run : List (ReserveRequest × Date) → Reservations → Reservations
  run [] s = s
  run ((request, now) ∷ rest) s = run rest (reserve_namespace validate request now s).1

  -- A request for the namespace, in any casing, whose own spelling the engine accepts
  abbrev pub claims_it : Text → ReserveRequest → Bool
  claims_it namespace request =
      is_resolved (validate (bare request.namespace))
      && namespace_key request.namespace == namespace_key namespace

  -- What the reservations promise, without a map: the owner in the first such request
  unfoldable pub first_claimant : Text → List (ReserveRequest × Date) → Option Text
  first_claimant namespace [] = none
  first_claimant namespace ((request, now) ∷ rest) =
      if claims_it namespace request
      then some request.owner_user_id
      else first_claimant namespace rest

  after_request :
      (namespace : Text) (request : ReserveRequest) (now : Date) (s : Reservations)
      → owner_of (find namespace (reserve_namespace validate request now s).1)
        ≡ earlier
            (owner_of (find namespace s))
            (if claims_it namespace request then some request.owner_user_id else none)
  unfolding find reserve_namespace reserve
  after_request namespace request now s =
      let key = namespace_key request.namespace in
      let placed = get-put s key (namespace_key namespace) (reservation_of request now) in
      elim (Option-cases (get s key)) [
        | inl free ↦ elim (Option-cases (get s (namespace_key namespace))) [
          | inl none_there ↦ ground (arith, placed)
          | inr (r, there) ↦ ground (arith, placed)
        ]
        | inr (q, held) ↦ elim (Option-cases (get s (namespace_key namespace))) [
          | inl none_there ↦ ground (arith, placed)
          | inr (r, there) ↦ ground (arith, placed)
        ]
      ]

  run-owner :
      (requests : List (ReserveRequest × Date)) (namespace : Text) (s : Reservations)
      → owner_of (find namespace (run requests s))
        ≡ earlier (owner_of (find namespace s)) (first_claimant namespace requests)
  unfolding run first_claimant
  run-owner [] namespace s = elim (Option-cases (owner_of (find namespace s))) [
    | inl nobody ↦ rw nobody refl
    | inr (owner, held) ↦ rw held refl
  ]
  run-owner ((request, now) ∷ rest) namespace s =
      let t = (reserve_namespace validate request now s).1 in
      let later = run-owner rest namespace t in
      let step = after_request namespace request now s in
      elim (Option-cases (owner_of (find namespace s))) [
        | inl nobody ↦ elim (Bool-cases (claims_it namespace request)) [
          | inl it ↦ ground (arith, later, step)
          | inr not_it ↦ ground (arith, later, step)
        ]
        | inr (owner, held) ↦ elim (Bool-cases (claims_it namespace request)) [
          | inl it ↦ ground (arith, later, step)
          | inr not_it ↦ ground (arith, later, step)
        ]
      ]

-- What an actor may expect of a namespace with this first claimant
abbrev pub promised : PageActor → Option Text → NamespaceAuthority
promised actor none = unreserved
promised guest_actor (some owner) = reserved_by_other
promised (user_actor user_id via_api_key) (some owner) =
    if user_id == owner then owned else reserved_by_other

authority-promised :
    (actor : PageActor) (o : Option NamespaceReservation)
    → authority_over actor o ≡ promised actor (owner_of o)
authority-promised actor none = refl
authority-promised guest_actor (some r) = refl
authority-promised (user_actor user_id via_api_key) (some r) = refl

-- After any requests on empty reservations, a namespace, in whatever casing, is unreserved if no
-- admissible request was made for it; otherwise it is owned by the user of the first such request,
-- and reserved by another to everybody else.
pub authority-first_claimant :
    (validate : Locator → LocatorResolution) (requests : List (ReserveRequest × Date))
    (actor : PageActor) (namespace : Text)
    → resolve_authority actor namespace (run validate requests [])
      ≡ promised actor (first_claimant validate namespace requests)
unfolding resolve_authority find get
authority-first_claimant validate requests actor namespace =
    rw
      (
        authority-promised actor (find namespace (run validate requests [])),
        run-owner validate requests namespace [],
      )
      refl
