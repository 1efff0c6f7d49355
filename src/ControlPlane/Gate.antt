-- ===== src/ControlPlane/Gate.antt =====
-- access.go and http.go: who can change the repository over HTTP.
use merger.Prelude.{
  ℕ, ◌≡◌, ◌≢◌, ◌⊎◌, refl, sym, ap, ◌∙◌, inl, inr, true, false, ◌&&◌, List, [], ◌∷◌, ◌++◌, Option,
  none, some, ◌==◌, arith, ℕ_discrete, Bool-cases, Option-cases, eq→≡, eq_refl, ne→neq, neq→ne,
  nat_key,
}
use mathlib.Core.List.{append_assoc}
use merger.Text.{Str, str_key, lit, trim, trim_prefix, split, join}
use merger.Text.Laws.{trim_last, join-split}
use merger.Access.{Principal, Role, authorize}
use merger.Access.Authorize.{MayAct}
use merger.Store.{Repository}
use merger.ControlPlane.Reconcile.{Service}
use merger.ControlPlane.Update.{Env}
use merger.ControlPlane.Http.{
  Method, allowed, refused, Route, Admission, Request, is_put, segments, route_segments, route,
  is_evidence_update, evidence_segments, required_role, access_middleware, handle, enter, serve,
}

last_slash : (a b : Str) → join (b'/' ∷ []) (a ∷ b ∷ [] ∷ []) ≡ (a ++ b'/' ∷ b) ++ b'/' ∷ []
unfolding join
last_slash a b = sym (append_assoc a (b'/' ∷ b) (b'/' ∷ []))

no_slash : ◌==◌ {A = ℕ} b'/' b'/' ≢ false
unfolding ℕ_discrete
no_slash h = cc

-- A trimmed path has no empty last segment.
no_last_empty : (path a b : Str) → segments path ≢ a ∷ b ∷ [] ∷ []
unfolding segments
no_last_empty path a b h =
    let t = trim (λ c. c == b'/') (trim_prefix path (lit "/api/v1/change-packets/")) in
    let back : t ≡ join (b'/' ∷ []) (a ∷ b ∷ [] ∷ []) =
      sym (join-split b'/' t) ∙ ap (join (b'/' ∷ [])) h in
    let front : join (b'/' ∷ []) (a ∷ b ∷ [] ∷ []) ≡ (a ++ b'/' ∷ b) ++ b'/' ∷ [] =
      last_slash a b in
    no_slash (trim_last (λ c. c == b'/') _ (a ++ b'/' ∷ b) b'/' (back ∙ front))

three :
    (m : Method) (a b c id name : Str)
    → a ≢ []
    → b ≡ lit "evidence"
    → allowed (is_put m) Method.put (Route.update_evidence a c) ≡ Route.update_evidence id name
    → (a ∷ b ∷ c ∷ [] ≡ id ∷ lit "evidence" ∷ name ∷ []) × (is_put m ≡ true) × (id ≢ [])
three Method.put a b c id name n e h =
    let ids : a ≡ id = cc in let names : c ≡ name = cc in (cc, refl, λ z. n (ids ∙ z))
three Method.get a b c id name n e h = cc
three Method.post a b c id name n e h = cc
three (Method.other s) a b c id name n e h = cc

update_route :
    (m : Method) (parts : List Str) (id name : Str)
    → route_segments m parts ≡ Route.update_evidence id name
    → (parts ≡ id ∷ lit "evidence" ∷ name ∷ []) × (is_put m ≡ true) × (id ≢ [])
unfolding route_segments
update_route m [] id name h = cc
update_route m (a ∷ []) id name h = ground arith
update_route m (a ∷ b ∷ []) id name h = ground arith
update_route m (a ∷ b ∷ c ∷ []) id name h = elim (Bool-cases (a == [])) [
  | inl e ↦ (let k = rw e at h in cc)
  | inr e ↦
      (let k = rw e at h in
        elim (Bool-cases (b == lit "evidence")) [
          | inl f ↦
              (let l = rw f at k in
                elim (Bool-cases (c == lit "audit")) [
                  | inl g ↦ (let n = rw g at l in ground arith)
                  | inr g ↦
                      (let n = rw g at l in
                        three m a b c id name (neq→ne a [] e) (eq→≡ b (lit "evidence") f) n)
                ])
          | inr f ↦ (let l = rw f at k in cc)
        ])
]
update_route m (a ∷ b ∷ c ∷ d ∷ parts) id name h = ground arith

update_needs_writer :
    (m : Method) (path id name : Str)
    → route m path ≡ Route.update_evidence id name
    → is_evidence_update m path ≡ true
unfolding route is_evidence_update
update_needs_writer m path id name h =
    let (parts, put, some_id) = update_route m (segments path) id name h in
    let named : name ≢ [] = λ e.
      no_last_empty path id (lit "evidence") (parts ∙ ap (λ x. id ∷ lit "evidence" ∷ x ∷ []) e) in
    rw (parts, put) (written id name some_id named)
  where
    written :
        (id name : Str)
        → id ≢ []
        → name ≢ []
        → (true && evidence_segments (id ∷ lit "evidence" ∷ name ∷ [])) ≡ true
    written id name n k = ground (arith, eq_refl (lit "evidence"), ne→neq id [] n, ne→neq name [] k)

-- Only two routes write.
writes :
    (s : Service) (env : Env) (q : Request) (r : Repository) (ρ : Route)
    → (handle s env q r ρ).1 ≢ r
    → ((id : Str) × (name : Str) × (ρ ≡ Route.update_evidence id name))
      ⊎ ((id : Str) × (ρ ≡ Route.record_outcome id))
unfolding handle
writes s env q r (Route.update_evidence id name) n = inl (id, name, refl)
writes s env q r (Route.record_outcome id) n = inr (id, refl)
writes s env q r Route.missing_id n = absurd (n refl)
writes s env q r Route.not_found n = absurd (n refl)
writes s env q r (Route.method_not_allowed _) n = absurd (n refl)
writes s env q r (Route.get_packet _) n = absurd (n refl)
writes s env q r (Route.list_audit _) n = absurd (n refl)

may_act : (p : Principal) (role : Role) → authorize p role ≡ none → MayAct p role
unfolding authorize
may_act p role h = record { named = ground arith; known = ground arith; granted = ground arith }

middleware_cases :
    (authenticate : Str → Option Principal) (m : Method) (path header : Str)
    → (path ≡ lit "/healthz")
      ⊎ ((status : ℕ) × (access_middleware authenticate m path header ≡ Admission.refuse status))
      ⊎ ((p : Principal) × (authenticate header ≡ some p)
          × (authorize p (required_role m path) ≡ none)
          × (access_middleware authenticate m path header ≡ Admission.pass (some p)))
unfolding access_middleware
middleware_cases authenticate m path header = elim (Bool-cases (path == lit "/healthz")) [
  | inl health ↦ inl (eq→≡ path (lit "/healthz") health)
  | inr other ↦ inr (elim (Option-cases (authenticate header)) [
    | inl stranger ↦ inl (401, ground arith)
    | inr (p, known) ↦ elim (Option-cases (authorize p (required_role m path))) [
      | inl granted ↦ inr (p, known, granted, ground arith)
      | inr (e, forbidden) ↦ inl (refused e, ground arith)
    ]
  ])
]

health_read :
    (s : Service) (env : Env) (q : Request) (r : Repository) (m : Method)
    → (handle s env q r (route m (lit "/healthz"))).1 ≡ r
unfolding handle route route_segments segments lit split trim trim_prefix
health_read s env q r Method.get = refl
health_read s env q r Method.put = refl
health_read s env q r Method.post = refl
health_read s env q r (Method.other _) = refl

health_reads :
    (s : Service) (env : Env) (q : Request) (r : Repository) (a : Admission)
    → q.path ≡ lit "/healthz"
    → (enter s env q r a).1 ≡ r
health_reads s env q r (Admission.refuse status) e = refl
health_reads s env q r (Admission.pass p) e =
    ap (λ x. (handle s (record env { principal = p }) q r (route q.method x)).1) e
    ∙ (health_read s (record env { principal = p }) q r q.method)

outcome_segments :
    (m : Method) (parts : List Str) (id : Str)
    → route_segments m parts ≡ Route.record_outcome id
    → evidence_segments parts ≡ false
unfolding route_segments
outcome_segments m [] id h = refl
outcome_segments m (a ∷ []) id h = refl
outcome_segments m (a ∷ b ∷ []) id h = refl
outcome_segments m (a ∷ b ∷ c ∷ []) id h = ground arith
outcome_segments m (a ∷ b ∷ c ∷ d ∷ parts) id h = refl

outcome_needs_reader :
    (m : Method) (path id : Str)
    → route m path ≡ Route.record_outcome id
    → required_role m path ≡ Role.reader
unfolding route is_evidence_update
outcome_needs_reader m path id h = ground (arith, outcome_segments m (segments path) id h)

-- What holds of a request that changes the repository.
pub record Permitted (authenticate : Str → Option Principal) (q : Request) : Type 0 where
  pub principal : Principal
  pub authenticated : authenticate q.authorization ≡ some principal
  pub permitted :
      ((id : Str) × (name : Str) × (route q.method q.path ≡ Route.update_evidence id name)
        × MayAct principal Role.evidence_writer)
      ⊎ ((id : Str) × (route q.method q.path ≡ Route.record_outcome id)
          × MayAct principal Role.reader)

-- A request over HTTP that changes the repository carries the credentials of a principal; it is
-- either the update of one piece of evidence of one packet, and the principal may act as an
-- evidence writer, or it records the outcome of one packet, for which the role of a reader is
-- enough.
pub serve-Permitted :
    (authenticate : Str → Option Principal) (s : Service) (env : Env) (q : Request) (r : Repository)
    → (serve authenticate s env q r).1 ≢ r
    → Permitted authenticate q
unfolding serve
serve-Permitted authenticate s env q r n =
    elim (middleware_cases authenticate q.method q.path q.authorization) [
      | inl health ↦ absurd (n (health_reads s env q r _ health))
      | inr (inl (status, refusal)) ↦ absurd (n (ap (λ a. (enter s env q r a).1) refusal))
      | inr (inr (p, known, granted, passed)) ↦
          let n' : (handle s (record env { principal = some p }) q r (route q.method q.path)).1
              ≢ r =
            λ e. n (ap (λ a. (enter s env q r a).1) passed ∙ e) in
          record {
            principal = p;
            authenticated = known;
            permitted =
                permission p granted
                  (writes s (record env { principal = some p }) q r (route q.method q.path) n');
          }
    ]
  where
    permission :
        (p : Principal)
        → authorize p (required_role q.method q.path) ≡ none
        → ((id : Str) × (name : Str) × (route q.method q.path ≡ Route.update_evidence id name))
          ⊎ ((id : Str) × (route q.method q.path ≡ Route.record_outcome id))
        → ((id : Str) × (name : Str) × (route q.method q.path ≡ Route.update_evidence id name)
            × MayAct p Role.evidence_writer)
          ⊎ ((id : Str) × (route q.method q.path ≡ Route.record_outcome id) × MayAct p Role.reader)
    permission p h (inl (id, name, e)) = inl (
      id,
      name,
      e,
      may_act p Role.evidence_writer (rw (update_needs_writer q.method q.path id name e) at h),
    )
    permission p h (inr (id, e)) =
        inr (id, e, may_act p Role.reader (rw (outcome_needs_reader q.method q.path id e) at h))
