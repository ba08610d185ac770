-- ===== src/Windows/PidFeatures/Pool.antt =====
-- What a host may rely on of the effect pool, and its reading from a state and from reports.
use libvirtualhid.Base.{
  ℕ, zero, suc, ◌≤◌, ◌<◌, ◌≡◌, ◌⊎◌, ◌==◌, Bool, true, false, List, [], ◌∷◌, Option, some, get_or,
  length, if◌then◌else◌,
}
use libvirtualhid.Windows.PidFeatures.{GenericPidFeatureState, get_feature_report}

-- Whether an effect of the pool is allocated, by its index from 1 to 40.
abbrev pub Pool : Type 0
Pool = ℕ → Bool

pub data Request : Type 0 where
  create free : ℕ → Request
  reset other : Request

pub data Reply : Type 0 where
  loaded : ℕ → Reply
  full refused silent : Reply

abbrev pub IsEffect : ℕ → Type 0
IsEffect id = (1 ≤ id) × (id ≤ 40)

abbrev pub Agree : Pool → Pool → Type 0
Agree p q = (j : ℕ) → q j ≡ p j

-- The pool with one effect changed.
abbrev pub with : Pool → ℕ → Bool → Pool
with p id allocated j = if j == id then allocated else p j

-- What a request may do. A new effect gets the least index that is free, of a type from 1 to 12; the pool
-- is full only when all 40 effects are allocated; to free an effect that is none changes nothing.
pub data PoolStep : Pool → Request → Reply → Pool → Type 0 where
  loads :
      {p q : Pool} (type id : ℕ)
      → (1 ≤ type) × (type ≤ 12)
      → IsEffect id
      → p id ≡ false
      → ((j : ℕ) → 1 ≤ j → j < id → p j ≡ true)
      → Agree (with p id true) q
      → PoolStep p (Request.create type) (Reply.loaded id) q
  is_full :
      {p q : Pool} (type : ℕ)
      → (1 ≤ type) × (type ≤ 12)
      → ((j : ℕ) → IsEffect j → p j ≡ true)
      → Agree p q
      → PoolStep p (Request.create type) Reply.full q
  refuses :
      {p q : Pool} (type : ℕ)
      → (type < 1) ⊎ (12 < type)
      → Agree p q
      → PoolStep p (Request.create type) Reply.refused q
  frees :
      {p q : Pool} (id : ℕ)
      → IsEffect id
      → Agree (with p id false) q
      → PoolStep p (Request.free id) Reply.silent q
  frees_none :
      {p q : Pool} (id : ℕ)
      → (id < 1) ⊎ (40 < id)
      → Agree p q
      → PoolStep p (Request.free id) Reply.silent q
  resets : {p q : Pool} → Agree (λ j. false) q → PoolStep p Request.reset Reply.silent q
  others : {p q : Pool} → Agree p q → PoolStep p Request.other Reply.silent q

-- The pool of a state.
abbrev pub slot : List Bool → ℕ → Bool
slot allocated zero = false
slot allocated (suc i) = get_or allocated i false

abbrev pub pool : GenericPidFeatureState → Pool
pool s = slot s.allocated

abbrev pub HasSlots : GenericPidFeatureState → Type 0
HasSlots s = length s.allocated ≡ 40

-- The request that a report makes, on either channel.
abbrev pub request_of_command : List ℕ → Request
request_of_command [] = Request.other
request_of_command (command ∷ bytes) = if command == 4 then Request.reset else Request.other

abbrev pub request_of_free : List ℕ → Request
request_of_free [] = Request.other
request_of_free (id ∷ bytes) = Request.free id

abbrev pub request_of_create : List ℕ → Request
request_of_create [] = Request.create 0
request_of_create (type ∷ bytes) = Request.create type

abbrev pub feature_request : ℕ → List ℕ → Request
feature_request report_id bytes =
    if report_id == 0x11
    then request_of_create bytes
    else if report_id == 0x1B
    then request_of_free bytes
    else if report_id == 0x1C
    then request_of_command bytes
    else Request.other

abbrev pub output_request : ℕ → List ℕ → Request
output_request report_id bytes =
    if report_id == 0x1A
    then Request.other
    else if report_id == 0x1B
    then request_of_free bytes
    else if report_id == 0x1C
    then request_of_command bytes
    else Request.other

-- The reply to a creation is what the host reads from the block load report.
abbrev pub answer : Option (List ℕ) → Reply
answer (some (id ∷ index ∷ status ∷ bytes)) =
    if status == 1 then Reply.loaded index else if status == 2 then Reply.full else Reply.refused
answer _ = Reply.refused

abbrev pub reply : Request → GenericPidFeatureState → Reply
reply (Request.create type) s = answer (get_feature_report 0x12 s)
reply _ s = Reply.silent
