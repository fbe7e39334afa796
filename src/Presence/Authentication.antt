-- ===== src/Presence/Authentication.antt =====
-- When `OpenSession` authenticates an agent, and what it does to the store when it does not.
use arxveil.Prelude.{
  ◌≡◌, ◌≢◌, refl, sym, subst, Bool, true, false, ◌⊎◌, inl, inr, Bool-cases, Option, none, some, [],
  text_eq, ◌==◌, eq_refl, ne→false, eq→path, arith,
}
use arxveil.Go.Text.{Bytes, trim_space}
use arxveil.Go.Fault.{sentinel, unauthenticated, Result, ok, err}
use arxveil.Go.Sha256.{sum256}
use arxveil.Go.Time.{Time}
use arxveil.Presence.{Credentials, Identity, Session, Store, open_session}

-- The stored hash of the identity belongs to the secret, and the credentials are well formed.
pub record IsAuthentic (is_uuid : Bytes → Bool) (c : Credentials) (i : Identity) : Type 0 where
  pub well_formed : is_uuid c.agent_id ≡ true
  pub nonblank : trim_space c.secret ≢ []
  pub same_hash : sum256 c.secret ≡ i.credential_hash

module _ {S : Type 0} (is_uuid : Bytes → Bool) (store : Store S) (c : Credentials) (s : S) where
  -- When the store finds the identity, the credentials are authentic for it and the store starts a
  -- session, a session of this machine and agent is returned.
  pub open_session_authentic :
      {s' s'' : S} {i : Identity} {t : Time}
      → IsAuthentic is_uuid c i
      → store.find_active_identity c.agent_id s ≡ (ok (some i), s')
      → store.start_session i.machine_id s' ≡ (ok t, s'')
      → open_session is_uuid store c s
        ≡ (ok (record { machine_id = i.machine_id; agent_id = i.agent_id; connected_at = t }), s'')
  unfolding open_session
  open_session_authentic {i} a found started = rw (
    a.well_formed,
    ne→false _ [] a.nonblank,
    found,
    a.same_hash,
    eq_refl i.credential_hash,
    started,
  )

  -- When a session is opened, the store has returned an identity for the given agent ID, the ID is
  -- a UUID, the secret is not blank and hashes to the identity's credential hash, the session is
  -- that of the identity's machine and agent, and it carries the time that the store has returned
  -- for the start of the session.
  pub open_session-ok :
      {session : Session}
      → (open_session is_uuid store c s).0 ≡ ok session
      → (i : Identity) × ((store.find_active_identity c.agent_id s).0 ≡ ok (some i))
        × IsAuthentic is_uuid c i
        × (session.machine_id ≡ i.machine_id)
        × (session.agent_id ≡ i.agent_id)
        × ((store.start_session i.machine_id (store.find_active_identity c.agent_id s).1).0
            ≡ ok session.connected_at)
  unfolding open_session
  open_session-ok {session} e = go (store.find_active_identity c.agent_id s).0 refl
    where
      go :
          (r : Result (Option Identity))
          → (store.find_active_identity c.agent_id s).0 ≡ r
          → (i : Identity) × ((store.find_active_identity c.agent_id s).0 ≡ ok (some i))
            × IsAuthentic is_uuid c i
            × (session.machine_id ≡ i.machine_id)
            × (session.agent_id ≡ i.agent_id)
            × ((store.start_session i.machine_id (store.find_active_identity c.agent_id s).1).0
                ≡ ok session.connected_at)
      go (err d) q = absurd (ground arith)
      go (ok none) q = absurd (ground arith)
      go (ok (some i)) q = (
        i,
        q,
        record {
          well_formed = ground arith;
          nonblank = ground (arith, text_eq.beq_iff (trim_space c.secret) []);
          same_hash = ground (arith, text_eq.beq_iff (sum256 c.secret) i.credential_hash);
        },
        ground arith,
        ground arith,
        ground arith,
      )

  -- Let the store answer the lookup of the agent ID without an error, with no identity for which
  -- the credentials are authentic. Then opening a session fails with `ErrUnauthenticated`, and no
  -- session is started: the state is that before or after the lookup.
  pub open_session_refused :
      {s' : S} {found : Option Identity}
      → store.find_active_identity c.agent_id s ≡ (ok found, s')
      → ((i : Identity) → found ≡ some i → ¬ IsAuthentic is_uuid c i)
      → (t : S) × (open_session is_uuid store c s ≡ (err (sentinel unauthenticated), t))
        × ((t ≡ s) ⊎ (t ≡ s'))
  unfolding open_session
  open_session_refused {s'} {found} e n = elim (Bool-cases (is_uuid c.agent_id)) [
    | inr bad ↦ (s, rw bad, inl refl)
    | inl good ↦ elim (Bool-cases (trim_space c.secret == [])) [
      | inl blank ↦ (s, rw (good, blank), inl refl)
      | inr nonblank ↦ go found good nonblank e n
    ]
  ]
    where
      go :
          (f : Option Identity)
          → is_uuid c.agent_id ≡ true
          → (trim_space c.secret == []) ≡ false
          → store.find_active_identity c.agent_id s ≡ (ok f, s')
          → ((i : Identity) → f ≡ some i → ¬ IsAuthentic is_uuid c i)
          → (t : S) × (open_session is_uuid store c s ≡ (err (sentinel unauthenticated), t))
            × ((t ≡ s) ⊎ (t ≡ s'))
      go none good nonblank q m = (s', rw (good, nonblank, q), inr refl)
      go (some i) good nonblank q m = elim (Bool-cases (sum256 c.secret == i.credential_hash)) [
        | inr differ ↦ (s', rw (good, nonblank, q, differ), inr refl)
        | inl same ↦ absurd (
            m i refl (record {
              well_formed = good;
              nonblank = ground (arith, text_eq.beq_iff (trim_space c.secret) []);
              same_hash = eq→path _ _ same;
            }))
      ]

  -- The calls of the store that opening a session makes.
  open_session_state :
      (found : Result (Option Identity))
      → (store.find_active_identity c.agent_id s).0 ≡ found
      → (machine_id : Bytes) × (((open_session is_uuid store c s).1 ≡ s)
          ⊎ (((open_session is_uuid store c s).1 ≡ (store.find_active_identity c.agent_id s).1)
              ⊎ ((open_session is_uuid store c s).1
                  ≡ (store.start_session machine_id
                      (store.find_active_identity c.agent_id s).1).1)))
  unfolding open_session
  open_session_state (err e) q = ([], ground (arith, q))
  open_session_state (ok none) q = ([], ground (arith, q))
  open_session_state (ok (some i)) q = (i.machine_id, ground (arith, q))

  -- What the calls of the store keep, opening a session keeps.
  pub open_session_keeps {ℓ} :
      (P : S → Type ℓ)
      → ((t : S) → P t → P (store.find_active_identity c.agent_id t).1)
      → ((machine_id : Bytes) (t : S) → P t → P (store.start_session machine_id t).1)
      → P s
      → P (open_session is_uuid store c s).1
  open_session_keeps P finds starts h =
      let (machine_id, calls) =
        open_session_state (store.find_active_identity c.agent_id s).0 refl in
      elim calls [
        | inl e ↦ subst P (sym e) h
        | inr (inl e) ↦ subst P (sym e) (finds s h)
        | inr (inr e) ↦ subst P (sym e) (starts machine_id _ (finds s h))
      ]

  -- A session that is opened is that of a start, after which nothing more is done.
  pub open_session_starts :
      {session : Session}
      → (open_session is_uuid store c s).0 ≡ ok session
      → (between : S) × ((store.start_session session.machine_id between).0
          ≡ ok session.connected_at)
        × ((open_session is_uuid store c s).1 ≡ (store.start_session session.machine_id between).1)
  unfolding open_session
  open_session_starts {session} e = go (store.find_active_identity c.agent_id s).0 refl
    where
      go :
          (found : Result (Option Identity))
          → (store.find_active_identity c.agent_id s).0 ≡ found
          → (between : S) × ((store.start_session session.machine_id between).0
              ≡ ok session.connected_at)
            × ((open_session is_uuid store c s).1
                ≡ (store.start_session session.machine_id between).1)
      go (err d) q = absurd (ground (arith, q, e))
      go (ok none) q = absurd (ground (arith, q, e))
      go (ok (some i)) q =
          ((store.find_active_identity c.agent_id s).1, ground (arith, q, e), ground (arith, q, e))
