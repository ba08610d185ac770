-- ===== src/Windows/PidFeatures/Steps.antt =====
-- `GenericPidFeatureState` keeps to the abstract pool: every report that it handles is a step of it.
use libvirtualhid.Base.{
  ℕ, zero, suc, ◌+◌, ◌-◌, ◌%◌, ◌≤◌, ◌<◌, ◌≡◌, inl, ◌∙◌, ◌==◌, ==_iff, ◌||◌, refl, ap, sym, subst,
  Bool, true, false, List, [], ◌∷◌, Option, none, some, get_or, get_or-set_self, get_or-set_ne, set,
  length, length-set, length-replicate, replicate, if◌then◌else◌, if-cases, ltb, arith,
}
use libvirtualhid.Windows.PidFeatures.{
  GenericPidFeatureState, payload, first_free, next_slot, allocate, create_effect, free_effect,
  effect_operation, device_control, with_first, with_two, handle_set_feature, handle_output_report,
  get_feature_report,
}
use libvirtualhid.Windows.PidFeatures.Pool.{
  Request, Reply, IsEffect, Agree, PoolStep, slot, pool, HasSlots, request_of_command,
  request_of_free, request_of_create, feature_request, output_request, reply,
}

slot-set :
    (xs : List Bool) (i : ℕ) (v : Bool) (j : ℕ)
    → i < length xs
    → slot (set xs i v) j ≡ (if j == suc i then v else slot xs j)
slot-set xs i v zero h = ground arith
slot-set xs i v (suc j) h =
    if-cases (λ (b : Bool). get_or (set xs i v) j false ≡ b) (suc j == suc i)
      (λ e.
        subst (λ k. get_or (set xs i v) k false ≡ v) (omega (arith, (==_iff (suc j) (suc i)).0 e))
          (get_or-set_self xs i v false h))
      (λ e. get_or-set_ne xs i j v false (λ q. ground (arith, ==_iff (suc j) (suc i))))

-- What the search for a free slot finds.
abbrev Found : List Bool → Option ℕ → Type 0
Found xs none = (j : ℕ) → j < length xs → get_or xs j false ≡ true
Found xs (some i) =
    (i < length xs) × (get_or xs i false ≡ false) × ((j : ℕ) → j < i → get_or xs j false ≡ true)

later-Found : (xs : List Bool) (o : Option ℕ) → Found xs o → Found (true ∷ xs) (next_slot o)
later-Found xs none f = λ j h. after j h
  where
    after : (j : ℕ) → j < suc (length xs) → get_or (true ∷ xs) j false ≡ true
    after zero h = refl
    after (suc j) h = f j (omega arith)
later-Found xs (some i) f = (omega (arith, f.0), f.1, λ j h. before j h)
  where
    before : (j : ℕ) → j < suc i → get_or (true ∷ xs) j false ≡ true
    before zero h = refl
    before (suc j) h = f.2 j (omega arith)

first_free-Found : (xs : List Bool) → Found xs (first_free xs)
first_free-Found [] = λ j h. absurd (omega arith)
first_free-Found (false ∷ xs) = (omega arith, refl, λ j h. absurd (omega arith))
first_free-Found (true ∷ xs) = later-Found xs (first_free xs) (first_free-Found xs)

-- A predicate of the slots is one of the pool's indices.
slot-true :
    (xs : List Bool) (n : ℕ)
    → ((j : ℕ) → j < n → get_or xs j false ≡ true)
    → (j : ℕ) → 1 ≤ j
    → j ≤ n
    → slot xs j ≡ true
slot-true xs n f zero lo hi = absurd (omega arith)
slot-true xs n f (suc j) lo hi = f j (omega arith)

module _ (s : GenericPidFeatureState) (wf : HasSlots s) where
  allocate-PoolStep :
      (type : ℕ) (o : Option ℕ)
      → (1 ≤ type) × (type ≤ 12)
      → Found s.allocated o
      → PoolStep
          (pool s)
          (Request.create type)
          (reply (Request.create type) (allocate s o))
          (pool (allocate s o))
  unfolding get_feature_report
  allocate-PoolStep type none valid f =
      PoolStep.is_full type valid
        (λ j h. slot-true s.allocated 40 (λ k l. f k (omega arith)) j h.0 h.1) (λ j. refl)
  allocate-PoolStep type (some i) valid f =
      let index : (i + 1) % 256 ≡ suc i = omega (arith, f.0) in
      subst
        (λ n. PoolStep (pool s) (Request.create type) (Reply.loaded n) (pool (allocate s (some i))))
        (sym index)
        (PoolStep.loads type (suc i) valid (omega arith, omega (arith, f.0)) f.1
          (λ j lo hi. slot-true s.allocated i f.2 j lo (omega arith))
          (λ j. slot-set s.allocated i true j f.0))

  create-PoolStep :
      (bytes : List ℕ)
      → PoolStep
          (pool s)
          (request_of_create bytes)
          (reply (request_of_create bytes) (create_effect bytes s))
          (pool (create_effect bytes s))
  unfolding create_effect get_feature_report
  create-PoolStep [] = PoolStep.refuses 0 (inl (omega arith)) (λ j. refl)
  create-PoolStep (type ∷ bytes) =
      if-cases
        (λ t. PoolStep (pool s) (Request.create type) (reply (Request.create type) t) (pool t))
        (ltb type 1 || ltb 12 type) (λ e. PoolStep.refuses type (ground arith) (λ j. refl))
        (λ e.
          allocate-PoolStep type (first_free s.allocated) (ground arith)
            (first_free-Found s.allocated))

  freed-PoolStep :
      (id : ℕ)
      → IsEffect id
      → PoolStep (pool s) (Request.free id) Reply.silent (slot (set s.allocated (id - 1) false))
  freed-PoolStep id h = PoolStep.frees id h (λ j.
      subst (λ n. slot (set s.allocated (id - 1) false) j ≡ (if j == n then false else pool s j))
        (omega (arith, h.0)) (slot-set s.allocated (id - 1) false j (omega (arith, h.0, h.1))))

  free-PoolStep :
      (id : ℕ) → PoolStep (pool s) (Request.free id) Reply.silent (pool (free_effect id s))
  unfolding free_effect
  free-PoolStep id =
      if-cases (λ t. PoolStep (pool s) (Request.free id) Reply.silent (pool t))
        (id == 0 || ltb (length s.allocated) id)
        (λ e. PoolStep.frees_none id (ground arith) (λ j. refl))
        (λ e.
          if-cases (λ t. PoolStep (pool s) (Request.free id) Reply.silent (pool t))
            (s.state_effect_block_index == id) (λ _. freed-PoolStep id (ground arith))
            (λ _. freed-PoolStep id (ground arith)))

  slot-replicate : (n j : ℕ) → slot (replicate n false) j ≡ false
  slot-replicate n zero = refl
  slot-replicate zero (suc j) = refl
  slot-replicate (suc n) (suc zero) = refl
  slot-replicate (suc n) (suc (suc j)) = slot-replicate n (suc j)

  command_request-PoolStep :
      (b : Bool) (t : GenericPidFeatureState)
      → (b ≡ true → Agree (λ j. false) (pool t))
      → (b ≡ false → Agree (pool s) (pool t))
      → PoolStep
          (pool s)
          (if b then Request.reset else Request.other)
          (reply (if b then Request.reset else Request.other) t)
          (pool t)
  command_request-PoolStep true t h k = PoolStep.resets (h refl)
  command_request-PoolStep false t h k = PoolStep.others (k refl)

  device_control-allocated :
      (command : ℕ)
      → (device_control command s).allocated
        ≡ (if command == 4 then replicate (length s.allocated) false else s.allocated)
  unfolding device_control
  device_control-allocated command = ground arith

  command-PoolStep :
      (bytes : List ℕ)
      → PoolStep
          (pool s)
          (request_of_command bytes)
          (reply (request_of_command bytes) (with_first device_control bytes s))
          (pool (with_first device_control bytes s))
  command-PoolStep [] = PoolStep.others (λ j. refl)
  command-PoolStep (command ∷ bytes) =
      let kept = device_control-allocated command in
      command_request-PoolStep (command == 4) (device_control command s)
        (λ e. λ j.
          ap (λ xs. slot xs j)
            (kept ∙ ap (λ b. if b then replicate (length s.allocated) false else s.allocated) e)
          ∙ slot-replicate (length s.allocated) j)
        (λ e. λ j.
          ap (λ xs. slot xs j)
            (kept ∙ ap (λ b. if b then replicate (length s.allocated) false else s.allocated) e))

  release-PoolStep :
      (bytes : List ℕ)
      → PoolStep
          (pool s)
          (request_of_free bytes)
          (reply (request_of_free bytes) (with_first free_effect bytes s))
          (pool (with_first free_effect bytes s))
  release-PoolStep [] = PoolStep.others (λ j. refl)
  release-PoolStep (id ∷ bytes) = free-PoolStep id

  operation-PoolStep :
      (bytes : List ℕ)
      → PoolStep (pool s) Request.other Reply.silent (pool (with_two effect_operation bytes s))
  unfolding effect_operation
  operation-PoolStep [] = PoolStep.others (λ j. refl)
  operation-PoolStep (id ∷ []) = PoolStep.others (λ j. refl)
  operation-PoolStep (id ∷ operation ∷ bytes) = PoolStep.others (λ j. ap (λ xs. slot xs j) kept)
    where
      kept : (effect_operation id operation s).allocated ≡ s.allocated
      kept = ground arith

  -- The number of slots after each of the changes.
  create-slots : (bytes : List ℕ) → HasSlots (create_effect bytes s)
  unfolding create_effect
  create-slots [] = wf
  create-slots (type ∷ bytes) =
      if-cases HasSlots (ltb type 1 || ltb 12 type) (λ _. wf)
        (λ _. allocate-slots (first_free s.allocated))
    where
      allocate-slots : (o : Option ℕ) → HasSlots (allocate s o)
      allocate-slots none = wf
      allocate-slots (some index) = length-set s.allocated index true ∙ wf

  release-slots : (bytes : List ℕ) → HasSlots (with_first free_effect bytes s)
  unfolding free_effect
  release-slots [] = wf
  release-slots (id ∷ bytes) =
      if-cases HasSlots (id == 0 || ltb (length s.allocated) id) (λ _. wf)
        (λ _.
          if-cases HasSlots (s.state_effect_block_index == id)
            (λ _. length-set s.allocated (id - 1) false ∙ wf)
            (λ _. length-set s.allocated (id - 1) false ∙ wf))

  command-slots : (bytes : List ℕ) → HasSlots (with_first device_control bytes s)
  command-slots [] = wf
  command-slots (command ∷ bytes) =
      ap length (device_control-allocated command)
      ∙ if-cases (λ (xs : List Bool). length xs ≡ 40) (command == 4)
          (λ _. length-replicate (length s.allocated) false ∙ wf) (λ _. wf)

  operation-slots : (bytes : List ℕ) → HasSlots (with_two effect_operation bytes s)
  unfolding effect_operation
  operation-slots [] = wf
  operation-slots (id ∷ []) = wf
  operation-slots (id ∷ operation ∷ bytes) = ground arith

  -- A step by a request and what the handler returns for it.
  abbrev pub Steps : Request → Bool × GenericPidFeatureState → Type 0
  Steps request result =
      PoolStep (pool s) request (reply request result.1) (pool result.1) × HasSlots result.1

  Steps-if :
      (b : Bool) (r q : Request) (t u : Bool × GenericPidFeatureState)
      → Steps r t
      → Steps q u
      → Steps (if b then r else q) (if b then t else u)
  Steps-if true r q t u h k = h
  Steps-if false r q t u h k = k

  -- Every report that the state handles, on the feature or on the output channel, is a step of the pool:
  -- the new pool and the reply that the host then reads from the block load report are those of the
  -- request in the report. The state has its 40 slots, before and after.
  pub handle-PoolStep :
      (report_id : ℕ) (report : List ℕ)
      → Steps
          (feature_request report_id (payload report_id report))
          (handle_set_feature report_id report s)
        × Steps
            (output_request report_id (payload report_id report))
            (handle_output_report report_id report s)
  unfolding handle_set_feature handle_output_report
  handle-PoolStep report_id report =
      let bytes = payload report_id report in
      (
        Steps-if (report_id == 0x11) _ _ _ _ (create-PoolStep bytes, create-slots bytes)
            (Steps-if (report_id == 0x1B) _ _ _ _ (release-PoolStep bytes, release-slots bytes)
              (Steps-if (report_id == 0x1C) _ _ _ _ (command-PoolStep bytes, command-slots bytes)
                (PoolStep.others (λ j. refl), wf))),
        Steps-if (report_id == 0x1A) _ _ _ _ (operation-PoolStep bytes, operation-slots bytes)
            (Steps-if (report_id == 0x1B) _ _ _ _ (release-PoolStep bytes, release-slots bytes)
              (Steps-if (report_id == 0x1C) _ _ _ _ (command-PoolStep bytes, command-slots bytes)
                (PoolStep.others (λ j. refl), wf))),
      )
