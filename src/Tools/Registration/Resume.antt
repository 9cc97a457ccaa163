-- ===== src/Tools/Registration/Resume.antt =====
-- RegisterNode after a run that has failed, and its state file.
use averlock.Prelude.{
  ℕ, ◌≡◌, refl, true, ◌||◌, ◌==◌, ==_refl, [], ◌∷◌, ◌++◌, Bytes, arith, Result, ok, err, ◌⊎◌, inl,
  inr, Bool-cases, Result-cases, if◌then◌else◌,
}
use averlock.Ethereum.{Hash}
use averlock.Tools.Registration.{
  RegistrationState, RegistrationError, saved, World, Chain, get_proof,
}
use averlock.Tools.Registration.Node.{
  Request, Run, has_step, noting, save_state, register_step, request_step, availability_step,
  production_step, load_state, prepare, finish, register_node, mark_attestation, mark_availability,
}

has_step-append : (x y : ℕ) (s : Bytes) → has_step x (s ++ y ∷ []) ≡ (has_step x s || x == y)
unfolding has_step
has_step-append x y [] = ground arith
has_step-append x y (z ∷ s) = ground (arith, has_step-append x y s)

module _ {V : Type 0} (c : Chain V) where
  -- Steps are not forgotten, and the file has the state unless nothing was done.
  pub record Advances (a b : Run c) : Type 0 where
    pub keeps :
        (x : ℕ) → has_step x a.0.completed_steps ≡ true → has_step x b.0.completed_steps ≡ true
    pub file : (b.1.file ≡ saved b.0) ⊎ ((b.0 ≡ a.0) × (b.1.file ≡ a.1.file))

  Advances-refl : (a : Run c) → Advances a a
  Advances-refl a = record { keeps = λ x h. h; file = inr (refl, refl) }

  Advances-trans : (a b d : Run c) → Advances a b → Advances b d → Advances a d
  Advances-trans a b d p q = record {
    keeps = λ x h. q.keeps x (p.keeps x h);
    file = ground (arith, p.file, q.file);
  }

  module _ (writes : (st : RegistrationState) (w : World V) → c.write_file st w ≡ saved st) where
    -- what noting a step does
    noting-Advances :
        (mark : Hash → RegistrationState → RegistrationState) (x : ℕ) (st : RegistrationState)
        (w0 : World V) (out : Result RegistrationError Hash × World V) (id : Hash) (run : Run c)
        → ((i : Hash) → (mark i st).completed_steps ≡ st.completed_steps ++ x ∷ [])
        → noting c mark st out ≡ (ok id, run)
        → Advances (st, w0) run × (has_step x run.0.completed_steps ≡ true) × (run.0 ≡ mark id st)
    noting-Advances mark x st w0 (err e, w) id run marks h = absurd (ground (arith, h))
    noting-Advances mark x st w0 (ok i, w) id run marks h =
        let now : run ≡ (mark i st, save_state c (mark i st) w) = ground (arith, h) in
        let same : i ≡ id = ground (arith, h) in
        let added = has_step-append x x st.completed_steps in
        rw (now, same)
          (
            record {
              keeps = λ y k. ground (arith, k, marks id, has_step-append y x st.completed_steps);
              file = inl (writes (mark id st) w);
            },
            ground (arith, marks id, added, ==_refl x),
            refl,
          )

    -- a step's result: it is noted if it was asked for
    Noted : Request → ℕ → Run c → Run c → Type 0
    Noted q x a b =
        Advances a b × (has_step x q.command ≡ true → has_step x b.0.completed_steps ≡ true)

    register_step-Noted :
        (q : Request) (a b : Run c) (id : Hash)
        → register_step c q a ≡ (ok id, b)
        → Noted q b'r' a b
    unfolding register_step Noted
    register_step-Noted q (st, w) b id h = elim (Bool-cases (has_step b'r' q.command)) [
      | inr unasked ↦
          let same : b ≡ (st, w) = ground (arith, h) in
          rw same (Advances-refl (st, w), λ k. absurd (cc (k, unasked)))
      | inl asked ↦ elim (Bool-cases (has_step b'r' st.completed_steps)) [
        | inl done ↦
            let same : b ≡ (st, w) = ground (arith, h) in rw same (Advances-refl (st, w), λ k. done)
        | inr todo ↦
            let (on, noted, _) =
              noting-Advances (mark_attestation c b'r') b'r' st w _ id b (λ i. refl)
                (rw (asked, todo) at h) in
            (on, λ k. noted)
      ]
    ]

    request_step-Noted :
        (q : Request) (attestation : Hash) (a b : Run c) (id : Hash)
        → request_step c q attestation a ≡ (ok id, b)
        → Noted q b'R' a b
    unfolding request_step Noted
    request_step-Noted q attestation (st, w) b id h = elim (Bool-cases (has_step b'R' q.command)) [
      | inr unasked ↦
          let same : b ≡ (st, w) = ground (arith, h) in
          rw same (Advances-refl (st, w), λ k. absurd (cc (k, unasked)))
      | inl asked ↦ elim (Bool-cases (has_step b'R' st.completed_steps)) [
        | inl done ↦
            let same : b ≡ (st, w) = ground (arith, h) in rw same (Advances-refl (st, w), λ k. done)
        | inr todo ↦
            let (on, noted, _) =
              noting-Advances (mark_attestation c b'R') b'R' st w _ id b (λ i. refl)
                (rw (asked, todo) at h) in
            (on, λ k. noted)
      ]
    ]

    -- the instruction that production is for
    abbrev pub instruction_for : Request → RegistrationState → Hash
    instruction_for q st = if has_step b'a' q.command then st.instruction_id else q.instruction_id

    availability_step-Noted :
        (q : Request) (attestation : Hash) (a b : Run c) (id : Hash)
        → availability_step c q attestation a ≡ (ok id, b)
        → Noted q b'a' a b × (id ≡ instruction_for q b.0)
    unfolding availability_step Noted
    availability_step-Noted q attestation (st, w) b id h =
        elim (Bool-cases (has_step b'a' q.command)) [
          | inr unasked ↦
              let same : b ≡ (st, w) = ground (arith, h) in
              rw same ((Advances-refl (st, w), λ k. absurd (cc (k, unasked))), ground (arith, h))
          | inl asked ↦ elim (Bool-cases (has_step b'a' st.completed_steps)) [
            | inl done ↦
                let same : b ≡ (st, w) = ground (arith, h) in
                rw same ((Advances-refl (st, w), λ k. done), ground (arith, h))
            | inr todo ↦
                let (on, noted, is) =
                  noting-Advances (mark_availability c) b'a' st w _ id b (λ i. refl)
                    (rw (asked, todo) at h) in
                ((on, λ k. noted), ground (arith, is, asked))
          ]
        ]

    -- every step that is asked for is done
    pub record IsDone (q : Request) (st : RegistrationState) : Type 0 where
      pub registered : has_step b'r' q.command ≡ true → has_step b'r' st.completed_steps ≡ true
      pub requested : has_step b'R' q.command ≡ true → has_step b'R' st.completed_steps ≡ true
      pub available : has_step b'a' q.command ≡ true → has_step b'a' st.completed_steps ≡ true

    prepare-IsDone :
        (q : Request) (a b : Run c) (id : Hash)
        → prepare c q a ≡ (ok id, b)
        → Advances a b × IsDone q b.0 × (id ≡ instruction_for q b.0)
    unfolding prepare
    prepare-IsDone q a b id h = elim (Result-cases (register_step c q a).0) [
      | inr (e, failed) ↦ absurd (ground (arith, h))
      | inl (i, first) ↦
          let a1 = (register_step c q a).1 in
          let on1 = register_step-Noted q a a1 i (ground (arith, first)) in
          elim (Result-cases (request_step c q i a1).0) [
            | inr (e, failed) ↦ absurd (ground (arith, h))
            | inl (j, second) ↦
                let a2 = (request_step c q i a1).1 in
                let on2 = request_step-Noted q i a1 a2 j (ground (arith, second)) in
                let on3 = availability_step-Noted q j a2 b id (ground (arith, h)) in
                joined q a a1 a2 b id on1 on2 on3
          ]
    ]
      where
        joined :
            (q : Request) (a a1 a2 b : Run c) (id : Hash)
            → Noted q b'r' a a1
            → Noted q b'R' a1 a2
            → Noted q b'a' a2 b × (id ≡ instruction_for q b.0)
            → Advances a b × IsDone q b.0 × (id ≡ instruction_for q b.0)
        joined q a a1 a2 b id on1 on2 (on3, is) =
            unfold Noted in
            (
              Advances-trans a a1 b on1.0 (Advances-trans a1 a2 b on2.0 on3.0),
              record {
                registered = λ k. on3.0.keeps b'r' (on2.0.keeps b'r' (on1.1 k));
                requested = λ k. on3.0.keeps b'R' (on2.1 k);
                available = on3.1;
              },
              is,
            )

    prepare_done :
        (q : Request) (st : RegistrationState) (w : World V)
        → IsDone q st
        → prepare c q (st, w) ≡ (ok (instruction_for q st), (st, w))
    unfolding prepare register_step request_step availability_step
    prepare_done q st w done = ground (arith, done.registered, done.requested, done.available)

    -- a failing production leaves the file alone
    finish_failed :
        (q : Request) (id : Hash) (st : RegistrationState) (w w1 : World V) (e : RegistrationError)
        → finish c q (ok id, (st, w)) ≡ (err e, w1)
        → w1.file ≡ w.file
    unfolding finish production_step
    finish_failed q id st w w1 e h = elim (Bool-cases (has_step b'p' q.command)) [
      | inr unasked ↦ absurd (ground (arith, h))
      | inl asked ↦ elim (Result-cases (get_proof c id w.chain).0) [
        | inr (x, none_given) ↦ ground (arith, h)
        | inl (proof, given) ↦ ground (arith, h)
      ]
    ]

    -- If the steps before production succeed, the file can be written, and production then fails, the
    -- next run with the same arguments goes straight to production, for the same instruction: it
    -- requests nothing again.
    pub register_node-resumes :
        (q : Request) (w w1 : World V) (st : RegistrationState) (id : Hash) (run : Run c)
        (e : RegistrationError)
        → load_state c w.file ≡ ok st
        → prepare c q (st, w) ≡ (ok id, run)
        → register_node c q w ≡ (err e, w1)
        → register_node c q w1 ≡ finish c q (ok id, (run.0, w1))
    unfolding register_node
    register_node-resumes q w w1 st id (st', w') e loaded ready failed =
        let (on, done, is) = prepare-IsDone q (st, w) (st', w') id ready in
        let again = prepare_done q st' w1 done in
        let stopped : finish c q (ok id, (st', w')) ≡ (err e, w1) =
          ground (arith, loaded, ready, failed) in
        let file = finish_failed q id st' w' w1 e stopped in
        let reloaded : load_state c w1.file ≡ ok st' =
          unfold load_state in ground (arith, on.file, file, loaded) in
        ground (arith, reloaded, again, is)
