-- ===== src/ControlPlane/Http.antt =====
-- access.go and http.go: which requests reach which operation, and under which role. What the JSON
-- decoder makes of a body, and the authenticator, are parameters.
use merger.Prelude.{
  ℕ, ◌+◌, ◌-◌, ◌*◌, leb, ltb, Bool, true, false, not, ◌&&◌, List, [], ◌∷◌, Option, none, some, ◌==◌,
  nat_key, if◌then◌else◌, Result, ok, err,
}
use merger.Text.{Str, str_key, lit, trim_prefix, split, trim}
use merger.Domain.{ChangePacket, EvidenceExecution, DeploymentOutcome}
use merger.Access.{Principal, Role, AccessError, authorize}
use merger.Store.{Repository, get_change_packet}
use merger.ControlPlane.Errors.{ServiceError}
use merger.ControlPlane.Reconcile.{Service}
use merger.ControlPlane.Update.{Env, update_evidence_execution}
use merger.ControlPlane.Outcomes.{record_deployment_outcome}

pub data Method : Type 0 where
  get put post : Method
  other : Str → Method

abbrev pub is_get : Method → Bool
is_get Method.get = true
is_get _ = false

abbrev pub is_put : Method → Bool
is_put Method.put = true
is_put _ = false

abbrev pub is_post : Method → Bool
is_post Method.post = true
is_post _ = false

-- The segments of a path under the prefix of the packets.
unfoldable pub segments : Str → List Str
segments path =
    split b'/' (trim (λ c. c == b'/') (trim_prefix path (lit "/api/v1/change-packets/")))

-- What `handleChangePacketByID` calls, or the error that it answers with.
pub data Route : Type 0 where
  missing_id not_found : Route
  method_not_allowed : Method → Route
  get_packet list_audit record_outcome : Str → Route
  update_evidence : Str → Str → Route

abbrev pub allowed : Bool → Method → Route → Route
allowed true m route = route
allowed false m route = Route.method_not_allowed m

-- The routing of one, two and three segments.
unfoldable pub route_segments : Method → List Str → Route
route_segments m [] = Route.missing_id
route_segments m (id ∷ []) =
    if id == [] then Route.missing_id else allowed (is_get m) Method.get (Route.get_packet id)
route_segments m (id ∷ part ∷ []) =
    if id == []
    then Route.missing_id
    else if part == lit "outcomes"
    then allowed (is_post m) Method.post (Route.record_outcome id)
    else Route.not_found
route_segments m (id ∷ part ∷ name ∷ []) =
    if id == []
    then Route.missing_id
    else if part == lit "evidence"
    then (if name == lit "audit"
        then allowed (is_get m) Method.get (Route.list_audit id)
        else allowed (is_put m) Method.put (Route.update_evidence id name))
    else Route.not_found
route_segments m (id ∷ _ ∷ _ ∷ _ ∷ _) = if id == [] then Route.missing_id else Route.not_found

unfoldable pub route : Method → Str → Route
unfolding route_segments segments
route m path = route_segments m (segments path)

abbrev pub evidence_segments : List Str → Bool
evidence_segments (id ∷ part ∷ name ∷ []) =
    not (id == []) && (part == lit "evidence" && not (name == []))
evidence_segments _ = false

unfoldable pub is_evidence_update : Method → Str → Bool
unfolding segments
is_evidence_update m path = is_put m && evidence_segments (segments path)

-- What `AccessMiddleware` decides: pass the request on, with the principal where there is one, or
-- answer with a status.
pub data Admission : Type 0 where
  pass : Option Principal → Admission
  refuse : ℕ → Admission

abbrev pub refused : AccessError → ℕ
refused AccessError.unauthenticated = 401
refused _ = 403

abbrev pub required_role : Method → Str → Role
required_role m path = if is_evidence_update m path then Role.evidence_writer else Role.reader

abbrev pub admitted : Principal → Option AccessError → Admission
admitted p none = Admission.pass (some p)
admitted p (some e) = Admission.refuse (refused e)

unfoldable pub access_middleware : (Str → Option Principal) → Method → Str → Str → Admission
unfolding is_evidence_update
access_middleware authenticate m path header =
    if path == lit "/healthz" then Admission.pass none else elim (authenticate header) [
      | none ↦ Admission.refuse 401
      | some p ↦ admitted p (authorize p (required_role m path))
    ]

unfoldable pub status_for_error : ServiceError → ℕ
status_for_error ServiceError.change_packet_not_found = 404
status_for_error (ServiceError.invalid _) = 400
status_for_error (ServiceError.evidence_not_found _ _) = 404
status_for_error (ServiceError.bad_transition _ _ _) = 409
status_for_error (ServiceError.publish_failed _) = 500

abbrev answered {ℓ} : {A : Type ℓ} → Result ServiceError A × Repository → ℕ × Repository
answered (ok _, r) = (202, r)
answered (err e, r) = (status_for_error e, r)

-- strconv.Atoi, for decimal digits after an optional sign: `none` is an error, out of range too.
abbrev digit : ℕ → Option ℕ
digit c = if leb b'0' c && leb c b'9' then some (c - b'0') else none

abbrev shifted : Option ℕ → ℕ → Option ℕ
shifted none acc = none
shifted (some d) acc = some (10 * acc + d)

unfoldable pub digits : Option ℕ → Str → Option ℕ
digits acc [] = acc
digits none (c ∷ s) = none
digits (some n) (c ∷ s) = digits (shifted (digit c) n) s

abbrev in_range : Option ℕ → Option ℕ
in_range none = none
in_range (some n) = if ltb n 9223372036854775808 then some n else none

-- The positive numbers that Atoi reads; a sign `-` gives none of them.
unfoldable pub positive_atoi : Str → Option ℕ
unfolding digits
positive_atoi [] = none
positive_atoi (c ∷ []) = in_range (digits (some 0) (c ∷ []))
positive_atoi (c ∷ d ∷ s) =
    if c == b'+' then in_range (digits (some 0) (d ∷ s)) else in_range (digits (some 0) (c ∷ d ∷ s))

abbrev capped : Option ℕ → Option ℕ
capped none = none
capped (some n) = if ltb 0 n then some (if ltb 200 n then 200 else n) else none

-- `parseListLimit`; `none` is a missing parameter on the left and an error on the right.
unfoldable pub parse_list_limit : Option (List Str) → Option ℕ
unfolding positive_atoi
parse_list_limit none = some 50
parse_list_limit (some (value ∷ [])) = capped (positive_atoi value)
parse_list_limit (some _) = none

-- A request, its body as the decoder reads it for each of the two writes.
pub record Request : Type 0 where
  pub method : Method
  pub path : Str
  pub authorization : Str
  pub limit : Option (List Str)
  pub evidence_body : Option EvidenceExecution
  pub outcome_body : Option DeploymentOutcome

-- `updateEvidenceExecution`: the packet and the name are those of the path.
unfoldable pub handle_update : Service → Env → Request → Repository → Str → Str → ℕ × Repository
unfolding status_for_error
handle_update s env q r id name = elim q.evidence_body [
  | none ↦ (400, r)
  | some e ↦
      answered (update_evidence_execution s env r (record e { change_packet_id = id; name = name }))
]

unfoldable pub handle_outcome : Env → Request → Repository → Str → ℕ × Repository
unfolding status_for_error
handle_outcome env q r id = elim q.outcome_body [
  | none ↦ (400, r)
  | some o ↦
      answered
        (record_deployment_outcome env.now env.fresh_id r (record o { change_packet_id = id }))
]

-- `getChangePacket` and `listEvidenceAudit`, as far as the status.
abbrev found_status : Option ChangePacket → ℕ
found_status none = 404
found_status (some _) = 200

abbrev audit_status : Option ℕ → Option ChangePacket → ℕ
audit_status none p = 400
audit_status (some _) p = found_status p

-- `handleChangePacketByID`: the status and the repository.
unfoldable pub handle : Service → Env → Request → Repository → Route → ℕ × Repository
unfolding handle_update handle_outcome parse_list_limit
handle s env q r (Route.update_evidence id name) = handle_update s env q r id name
handle s env q r (Route.record_outcome id) = handle_outcome env q r id
handle s env q r Route.missing_id = (400, r)
handle s env q r Route.not_found = (404, r)
handle s env q r (Route.method_not_allowed _) = (405, r)
handle s env q r (Route.get_packet id) = (found_status (get_change_packet r id), r)
handle s env q r (Route.list_audit id) =
    (audit_status (parse_list_limit q.limit) (get_change_packet r id), r)

abbrev pub enter : Service → Env → Request → Repository → Admission → ℕ × Repository
enter s env q r (Admission.refuse status) = (status, r)
enter s env q r (Admission.pass p) =
    handle s (record env { principal = p }) q r (route q.method q.path)

-- A request under the prefix of the packets, from the middleware to the answer.
unfoldable pub serve :
    (Str → Option Principal) → Service → Env → Request → Repository → ℕ × Repository
unfolding access_middleware handle route
serve authenticate s env q r =
    enter s env q r (access_middleware authenticate q.method q.path q.authorization)
