-- ===== src/Vaults/Access/Isolation.antt =====
-- Who reaches a vault: the check stated without its order of tests, and the isolation that follows.
use memory_and_soul_passport.Prelude.{
  String, ◌≡◌, refl, ◌↔◌, ◌⊎◌, ◌≢◌, inl, inr, Option, none, some, Bool, true, false, ◌||◌, arith,
  same, truthy, any,
}
use memory_and_soul_passport.Vaults.{
  Vault, VaultType, shared, workspace_private, global_private, principal_private,
  principal_passport, active, Registry, is_principal, any_mount_of,
}
use memory_and_soul_passport.Vaults.Access.{
  Caller, is_mounted_for, project_of_workspace, shares_project, accessible_by_type,
  is_vault_row_accessible_to, ok, classify_principal_access,
}

-- A column and the caller's field hold one text, which is not empty.
abbrev pub Agree : Option String → Option String → Type 0
Agree column field = (s : String) × (column ≡ some s) × (field ≡ some s) × (s ≢ "")

abbrev pub IsMounted : Registry → String → Option String → Type 0
IsMounted reg vault workspace =
    (w : String) × (workspace ≡ some w) × (w ≢ "") × (any (any_mount_of vault w) reg.mounts ≡ true)

-- The ways to a vault, for each type of vault.
abbrev pub MayReach : Registry → Vault → Caller → VaultType → Type 0
MayReach reg v c principal_private =
    Agree v.tenant_id c.tenant_id
    × Agree v.principal_id c.principal_id
    × Agree v.agent_id c.agent_id
    × Agree v.workspace_id c.workspace_id
MayReach reg v c principal_passport =
    Agree v.tenant_id c.tenant_id × Agree v.principal_id c.principal_id × (c.allow_passport ≡ true)
MayReach reg v c workspace_private =
    IsMounted reg v.vault_id c.workspace_id ⊎ Agree v.workspace_id c.workspace_id
MayReach reg v c global_private =
    IsMounted reg v.vault_id c.workspace_id ⊎ Agree v.agent_id c.agent_id
MayReach reg v c shared =
    IsMounted reg v.vault_id c.workspace_id
    ⊎ ((w : String) × (c.workspace_id ≡ some w)
        × (w ≢ "")
        × Agree v.project_id (project_of_workspace reg w))

Agree-sound : (a b : Option String) → truthy b ≡ true → same a b ≡ true → Agree a b
Agree-sound none b t h = ground arith
Agree-sound (some s) none t h = cc
Agree-sound (some s) (some r) t h = (s, refl, ground arith, ground arith)

Agree-sound_left : (a b : Option String) → truthy a ≡ true → same a b ≡ true → Agree b a
Agree-sound_left none b t h = cc
Agree-sound_left (some s) none t h = cc
Agree-sound_left (some s) (some r) t h = (s, ground arith, refl, ground arith)

Agree-complete_left : (a b : Option String) → Agree b a → (truthy a ≡ true) × (same a b ≡ true)
Agree-complete_left a b (s, p, q, n) = rw (p, q) (ground arith)

Agree-complete : (a b : Option String) → Agree a b → (truthy b ≡ true) × (same a b ≡ true)
Agree-complete a b (s, p, q, n) = rw (p, q) (ground arith)

is_mounted_for_iff :
    (reg : Registry) (vault : String) (workspace : Option String)
    → (is_mounted_for reg vault workspace ≡ true) ↔ IsMounted reg vault workspace
unfolding is_mounted_for
is_mounted_for_iff reg vault none = (λ h. cc, λ (w, e, r, q). cc)
is_mounted_for_iff reg vault (some w) =
    (λ h. (w, refl, ground arith, ground arith), λ (x, e, n, m). ground arith)

shares_project_iff :
    (reg : Registry) (v : Vault) (workspace : Option String)
    → (shares_project reg v workspace ≡ true) ↔ (
        (w : String) × (workspace ≡ some w)
        × (w ≢ "")
        × Agree v.project_id (project_of_workspace reg w))
unfolding shares_project
shares_project_iff reg v none = (λ h. cc, λ (w, e, r, q). cc)
shares_project_iff reg v (some w) = (
  λ h. (w, refl, ground arith, Agree-sound_left _ _ (ground arith) (ground arith)),
  λ (x, e, n, a).
      let same_text : x ≡ w = ground arith in
      let (t, m) = Agree-complete_left (project_of_workspace reg x) v.project_id a in
      let t' : truthy (project_of_workspace reg w) ≡ true = rw same_text at t in
      let m' : same (project_of_workspace reg w) v.project_id ≡ true = rw same_text at m in
      ground arith,
)

or_cases : (a b : Bool) → (a || b) ≡ true → (a ≡ true) ⊎ (b ≡ true)
or_cases true b h = inl refl
or_cases false b h = inr h

reach_sound :
    (reg : Registry) (v : Vault) (c : Caller) (t : VaultType)
    → accessible_by_type reg v c t ≡ true
    → MayReach reg v c t
unfolding accessible_by_type
reach_sound reg v c principal_private h = (
  Agree-sound v.tenant_id c.tenant_id (ground arith) (ground arith),
  Agree-sound v.principal_id c.principal_id (ground arith) (ground arith),
  Agree-sound v.agent_id c.agent_id (ground arith) (ground arith),
  Agree-sound v.workspace_id c.workspace_id (ground arith) (ground arith),
)
reach_sound reg v c principal_passport h = (
  Agree-sound v.tenant_id c.tenant_id (ground arith) (ground arith),
  Agree-sound v.principal_id c.principal_id (ground arith) (ground arith),
  ground arith,
)
reach_sound reg v c workspace_private h = elim (or_cases (is_mounted_for _ _ _) _ h) [
  | inl m ↦ inl ((is_mounted_for_iff reg v.vault_id c.workspace_id).0 m)
  | inr a ↦ inr (Agree-sound v.workspace_id c.workspace_id (ground arith) (ground arith))
]
reach_sound reg v c global_private h = elim (or_cases (is_mounted_for _ _ _) _ h) [
  | inl m ↦ inl ((is_mounted_for_iff reg v.vault_id c.workspace_id).0 m)
  | inr a ↦ inr (Agree-sound v.agent_id c.agent_id (ground arith) (ground arith))
]
reach_sound reg v c shared h = elim (or_cases (is_mounted_for _ _ _) _ h) [
  | inl m ↦ inl ((is_mounted_for_iff reg v.vault_id c.workspace_id).0 m)
  | inr a ↦ inr ((shares_project_iff reg v c.workspace_id).0 a)
]

reach_complete :
    (reg : Registry) (v : Vault) (c : Caller) (t : VaultType)
    → MayReach reg v c t
    → accessible_by_type reg v c t ≡ true
unfolding accessible_by_type
reach_complete reg v c principal_private (t, p, a, w) = ground (
  arith,
  Agree-complete v.tenant_id c.tenant_id t,
  Agree-complete v.principal_id c.principal_id p,
  Agree-complete v.agent_id c.agent_id a,
  Agree-complete v.workspace_id c.workspace_id w,
)
reach_complete reg v c principal_passport (t, p, k) = ground (
  arith,
  Agree-complete v.tenant_id c.tenant_id t,
  Agree-complete v.principal_id c.principal_id p,
)
reach_complete reg v c workspace_private (inl m) =
    rw ((is_mounted_for_iff reg v.vault_id c.workspace_id).1 m)
reach_complete reg v c workspace_private (inr a) =
    ground (arith, Agree-complete v.workspace_id c.workspace_id a)
reach_complete reg v c global_private (inl m) =
    rw ((is_mounted_for_iff reg v.vault_id c.workspace_id).1 m)
reach_complete reg v c global_private (inr a) =
    ground (arith, Agree-complete v.agent_id c.agent_id a)
reach_complete reg v c shared (inl m) = rw ((is_mounted_for_iff reg v.vault_id c.workspace_id).1 m)
reach_complete reg v c shared (inr a) =
    ground (arith, (shares_project_iff reg v c.workspace_id).1 a)

-- A vault is accessible exactly when it is active and the caller has a way to it for its type.
pub is_vault_row_accessible_to_iff :
    (reg : Registry) (v : Vault) (c : Caller)
    → (is_vault_row_accessible_to reg (some v) c ≡ true)
      ↔ ((v.status ≡ active) × MayReach reg v c v.vault_type)
unfolding is_vault_row_accessible_to
is_vault_row_accessible_to_iff reg v c = (
  λ h. (ground arith, reach_sound reg v c v.vault_type (ground arith)),
  λ (a, m). ground (arith, reach_complete reg v c v.vault_type m),
)

-- Two callers that reach one principal_private vault, in any two states of the registry, are the
-- same in all four fields of the owner.
pub accessible-one_owner :
    (reg reg' : Registry) (v : Vault) (c d : Caller)
    → v.vault_type ≡ principal_private
    → is_vault_row_accessible_to reg (some v) c ≡ true
    → is_vault_row_accessible_to reg' (some v) d ≡ true
    → (c.tenant_id ≡ d.tenant_id)
      × (c.principal_id ≡ d.principal_id)
      × (c.agent_id ≡ d.agent_id)
      × (c.workspace_id ≡ d.workspace_id)
accessible-one_owner reg reg' v c d type h k =
    let (_, m) = (is_vault_row_accessible_to_iff reg v c).0 h in
    let (_, n) = (is_vault_row_accessible_to_iff reg' v d).0 k in
    let a : MayReach reg v c principal_private = rw type at m in
    let b : MayReach reg' v d principal_private = rw type at n in
    (agree_once a.0 b.0, agree_once a.1 b.1, agree_once a.2 b.2, agree_once a.3 b.3)
  where
    agree_once : {x y z : Option String} → Agree x y → Agree x z → y ≡ z
    agree_once (s, p, q, _) (t, p', q', _) = cc

-- Whether a caller reaches a principal vault is the same in every state of the registry: no mount
-- and no other row has a part in it.
pub accessible-principal_local :
    (reg reg' : Registry) (v : Vault) (c : Caller)
    → is_principal v.vault_type ≡ true
    → is_vault_row_accessible_to reg (some v) c ≡ is_vault_row_accessible_to reg' (some v) c
unfolding is_vault_row_accessible_to accessible_by_type
accessible-principal_local reg reg' v c h = ground arith

-- The outcome for a vault is `ok` exactly when it is an active principal vault and there are claims
-- that have a way to it for its type.
pub classify_principal_access_iff :
    (reg : Registry) (v : Vault) (claims : Option Caller)
    → (classify_principal_access reg (some v) claims ≡ ok) ↔ (
        (is_principal v.vault_type ≡ true)
        × ((c : Caller) × (claims ≡ some c) × (v.status ≡ active) × MayReach reg v c v.vault_type))
unfolding classify_principal_access
classify_principal_access_iff reg v none = (λ h. ground arith, λ (p, (c, e, r, m)). cc)
classify_principal_access_iff reg v (some c) = (
  λ h.
      let (a, m) = (is_vault_row_accessible_to_iff reg v c).0 (ground arith) in
      (ground arith, (c, refl, a, m)),
  λ (p, (d, e, a, m)).
      let same_caller : c ≡ d = ground arith in
      ground (arith, (is_vault_row_accessible_to_iff reg v d).1 (a, m)),
)
