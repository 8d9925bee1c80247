-- ===== src/Ssh/Plan/Validate.antt =====
-- What `ConnectionPlan::validate` accepts, written without its order of tests.
use rem_cmd.Prelude.{
  ℕ, true, false, not, Option, none, some, List, [], ◌∷◌, ◌++◌, ok, err, ◌≡◌, ◌≢◌, refl, ap, ◌↔◌,
  ◌⊎◌, arith, is_empty, All, >>=-eq-ok, ◌>>◌, Bool-cases, inl, inr,
}
use rem_cmd.Prelude.Text.{Text, text_eq, text_eq_iff}
use rem_cmd.Ssh.Error.{SshError, configuration}
use rem_cmd.Ssh.Plan.{
  ConnectionStep, RuntimeProxy, http_connect, socks5, proxy_command, ConnectionPlan, seen_before,
  check_jumps, is_blank, check_steps, credentials_are_valid, check_endpoint, check_proxy, validate,
  uses_proxy_command,
}

-- A step that can be dialled.
pub record IsComplete (step : ConnectionStep) : Type 0 where
  pub host : is_blank step.profile.host ≡ false
  pub username : is_blank step.profile.username ≡ false
  pub port : step.profile.port ≢ 0

-- The ids of the jumps are pairwise different.
abbrev pub AreDistinct : List ConnectionStep → Type 0
AreDistinct [] = Unit
AreDistinct (j ∷ js) = All (λ k. k.profile.id ≢ j.profile.id) js × AreDistinct js

-- Either no credentials, or a user name that is not blank with a password.
pub data HasCredentials : Option Text → Option Text → Type 0 where
  anonymous : HasCredentials none none
  named : {u w : Text} → is_blank u ≡ false → HasCredentials (some u) (some w)

abbrev pub IsUsableProxy : Option RuntimeProxy → Type 0
IsUsableProxy none = Unit
IsUsableProxy (some (http_connect h p u w)) = (is_blank h ≡ false) × (p ≢ 0) × HasCredentials u w
IsUsableProxy (some (socks5 h p u w)) = (is_blank h ≡ false) × (p ≢ 0) × HasCredentials u w
IsUsableProxy (some (proxy_command c a)) = is_blank c ≡ false

-- The jumps differ from the target, from each other, and from the ids in `seen`.
record FitBehind (target_id : Text) (seen : List Text) (js : List ConnectionStep) : Type 0 where
  not_target : All (λ j. j.profile.id ≢ target_id) js
  fresh : All (λ j. seen_before j.profile.id seen ≡ false) js
  distinct : AreDistinct js

seen_split :
    (x : Text) (seen : List Text) (js : List ConnectionStep)
    → All (λ j. seen_before j.profile.id (x ∷ seen) ≡ false) js
    → All (λ j. j.profile.id ≢ x) js × All (λ j. seen_before j.profile.id seen ≡ false) js
seen_split x seen [] h = (tt, tt)
seen_split x seen (j ∷ js) h =
    let (a, b) = seen_split x seen js h.1 in
    ((ground (arith, text_eq_iff x j.profile.id, h.0), a), (ground (arith, h.0), b))

seen_join :
    (x : Text) (seen : List Text) (js : List ConnectionStep)
    → All (λ j. j.profile.id ≢ x) js
    → All (λ j. seen_before j.profile.id seen ≡ false) js
    → All (λ j. seen_before j.profile.id (x ∷ seen) ≡ false) js
seen_join x seen [] h k = tt
seen_join x seen (j ∷ js) h k =
    (ground (arith, text_eq_iff x j.profile.id, h.0, k.0), seen_join x seen js h.1 k.1)

check_jumps_sound :
    (t : Text) (seen : List Text) (js : List ConnectionStep)
    → check_jumps t seen js ≡ ok tt
    → FitBehind t seen js
unfolding check_jumps
check_jumps_sound t seen [] h = record { not_target = tt; fresh = tt; distinct = tt }
check_jumps_sound t seen (j ∷ js) h =
    let id = j.profile.id in
    let away : text_eq id t ≡ false = ground arith in
    let new : seen_before id seen ≡ false = ground arith in
    let f = check_jumps_sound t (id ∷ seen) js (ground arith) in
    let (others, old) = seen_split id seen js f.fresh in
    record {
      not_target = (ground (arith, text_eq_iff id t), f.not_target);
      fresh = (new, old);
      distinct = (others, f.distinct);
    }

check_jumps_complete :
    (t : Text) (seen : List Text) (js : List ConnectionStep)
    → FitBehind t seen js
    → check_jumps t seen js ≡ ok tt
unfolding check_jumps
check_jumps_complete t seen [] f = refl
check_jumps_complete t seen (j ∷ js) f =
    let id = j.profile.id in
    let rest = check_jumps_complete t (id ∷ seen) js (record {
      not_target = f.not_target.1;
      fresh = seen_join id seen js f.distinct.0 f.fresh.1;
      distinct = f.distinct.1;
    }) in
    ground (arith, rest, text_eq_iff id t, f.not_target, f.fresh)

check_steps_sound : (steps : List ConnectionStep) → check_steps steps ≡ ok tt → All IsComplete steps
unfolding check_steps
check_steps_sound [] h = tt
check_steps_sound (s ∷ steps) h = (ground arith, check_steps_sound steps (ground arith))

check_steps_complete :
    (steps : List ConnectionStep) → All IsComplete steps → check_steps steps ≡ ok tt
unfolding check_steps
check_steps_complete [] h = refl
check_steps_complete (s ∷ steps) h =
    ground (arith, h.0, h.0.host, h.0.username, h.0.port, check_steps_complete steps h.1)

credentials_iff : (u w : Option Text) → (credentials_are_valid u w ≡ true) ↔ HasCredentials u w
credentials_iff none none = (λ _. anonymous, λ _. refl)
credentials_iff (some u) (some w) = (λ h. named (ground arith), valid)
  where
    valid : HasCredentials (some u) (some w) → not (is_blank u) ≡ true
    valid (named h) = rw h
credentials_iff none (some w) = (λ h. cc, λ h. elim h [ ])
credentials_iff (some u) none = (λ h. cc, λ h. elim h [ ])

check_endpoint_iff :
    (h : Text) (p : ℕ) (u w : Option Text)
    → (check_endpoint h p u w ≡ ok tt) ↔ ((is_blank h ≡ false) × (p ≢ 0) × HasCredentials u w)
check_endpoint_iff h p u w =
    let (to, from) = credentials_iff u w in
    (λ e. (ground arith, ground arith, to (ground arith)), λ (a, b, c). ground (arith, from c))

check_proxy_iff : (p : Option RuntimeProxy) → (check_proxy p ≡ ok tt) ↔ IsUsableProxy p
unfolding check_proxy
check_proxy_iff none = (λ _. tt, λ _. refl)
check_proxy_iff (some (http_connect h p u w)) = check_endpoint_iff h p u w
check_proxy_iff (some (socks5 h p u w)) = check_endpoint_iff h p u w
check_proxy_iff (some (proxy_command c a)) = ground arith

-- A route that can be used: a ProxyCommand excludes jumps, the jumps differ from the target and
-- from each other, and every step and the proxy are complete.
pub record IsRoute (plan : ConnectionPlan) : Type 0 where
  pub exclusive : (uses_proxy_command plan.proxy ≡ false) ⊎ (plan.jumps ≡ [])
  pub not_target : All (λ j. j.profile.id ≢ plan.target.profile.id) plan.jumps
  pub distinct : AreDistinct plan.jumps
  pub complete : All IsComplete (plan.jumps ++ plan.target ∷ [])
  pub proxy : IsUsableProxy plan.proxy

fresh_none : (js : List ConnectionStep) → All (λ j. seen_before j.profile.id [] ≡ false) js
fresh_none [] = tt
fresh_none (j ∷ js) = (refl, fresh_none js)

empty_nil : (js : List ConnectionStep) → is_empty js ≡ true → js ≡ []
empty_nil [] h = refl
empty_nil (j ∷ js) h = cc

validate_sound : (plan : ConnectionPlan) → validate plan ≡ ok tt → IsRoute plan
unfolding validate
validate_sound plan h =
    let (a, rest, jumps_ok) =
      >>=-eq-ok (check_jumps plan.target.profile.id [] plan.jumps)
        (λ _. check_steps (plan.jumps ++ plan.target ∷ []) >> check_proxy plan.proxy)
        (ground arith) in
    let (b, proxy_ok, steps_ok) =
      >>=-eq-ok (check_steps (plan.jumps ++ plan.target ∷ [])) (λ _. check_proxy plan.proxy) rest in
    let f = check_jumps_sound plan.target.profile.id [] plan.jumps (jumps_ok) in
    record {
      exclusive = elim (Bool-cases (uses_proxy_command plan.proxy)) [
        | inl behind ↦ inr (empty_nil plan.jumps (ground arith))
        | inr other ↦ inl other
      ];
      not_target = f.not_target;
      distinct = f.distinct;
      complete = check_steps_sound (plan.jumps ++ plan.target ∷ []) (steps_ok);
      proxy = (check_proxy_iff plan.proxy).0 proxy_ok;
    }

jumps_empty :
    (plan : ConnectionPlan)
    → uses_proxy_command plan.proxy ≡ true
    → (uses_proxy_command plan.proxy ≡ false) ⊎ (plan.jumps ≡ [])
    → is_empty plan.jumps ≡ true
jumps_empty plan u (inl other) = cc
jumps_empty plan u (inr none_left) = ap is_empty none_left

validate_complete : (plan : ConnectionPlan) → IsRoute plan → validate plan ≡ ok tt
unfolding validate
validate_complete plan r =
    let jumps_ok = check_jumps_complete plan.target.profile.id [] plan.jumps (record {
      not_target = r.not_target;
      fresh = fresh_none plan.jumps;
      distinct = r.distinct;
    }) in
    let steps_ok = check_steps_complete (plan.jumps ++ plan.target ∷ []) r.complete in
    let proxy_ok = (check_proxy_iff plan.proxy).1 r.proxy in
    elim (Bool-cases (uses_proxy_command plan.proxy)) [
      | inl command ↦
          ground (arith, jumps_ok, steps_ok, proxy_ok, jumps_empty plan command r.exclusive)
      | inr other ↦ ground (arith, jumps_ok, steps_ok, proxy_ok)
    ]

-- `validate` accepts exactly the plans in which a ProxyCommand stands without jumps, no jump is
-- the target and no two jumps are the same, every step has a host, a user name and a port, and the
-- proxy is usable: a command that is not blank, or a host and a port with both credentials or
-- none.
pub validate_iff : (plan : ConnectionPlan) → (validate plan ≡ ok tt) ↔ IsRoute plan
validate_iff plan = (validate_sound plan, validate_complete plan)

module _ {e : SshError} where
  check_jumps_kind :
      (t : Text) (seen : List Text) (js : List ConnectionStep)
      → check_jumps t seen js ≡ err e
      → e.kind ≡ configuration
  unfolding check_jumps
  check_jumps_kind t seen [] h = cc
  check_jumps_kind t seen (j ∷ js) h = ground (arith, check_jumps_kind t (j.profile.id ∷ seen) js)

  check_steps_kind :
      (steps : List ConnectionStep) → check_steps steps ≡ err e → e.kind ≡ configuration
  unfolding check_steps
  check_steps_kind [] h = cc
  check_steps_kind (s ∷ steps) h = ground (arith, check_steps_kind steps)

  check_proxy_kind : (p : Option RuntimeProxy) → check_proxy p ≡ err e → e.kind ≡ configuration
  unfolding check_proxy
  check_proxy_kind none h = cc
  check_proxy_kind (some (http_connect _ p u w)) h = ground arith
  check_proxy_kind (some (socks5 _ p u w)) h = ground arith
  check_proxy_kind (some (proxy_command c a)) h = ground arith

-- Every refusal of a plan is a configuration error.
pub validate_kind :
    (plan : ConnectionPlan) {e : SshError} → validate plan ≡ err e → e.kind ≡ configuration
unfolding validate
validate_kind plan {e} h = ground (
  arith,
  check_jumps_kind {e = e} plan.target.profile.id [] plan.jumps,
  check_steps_kind {e = e} (plan.jumps ++ plan.target ∷ []),
  check_proxy_kind {e = e} plan.proxy,
)
