-- ===== src/Notion/Sync/Ends.antt =====
-- What holds where a body returns, with one rule for each way to build a body.
use new_day.Prelude.{◌≡◌, refl, sym, Bool, true, false, Option, none, some, if◌then◌else◌}
use new_day.Prelude.Lists.{along}
use new_day.Notion.Sync.{
  SyncState, NotionError, Outcome, threw, gave, Body, after, ◌>>=◌, done, check, present,
  if_present, when, ask, modify,
}

abbrev pub EndsIn : {A : Type 0} → Outcome A → (A → SyncState → Type 0) → Type 0
EndsIn (threw e) Q = Unit
EndsIn (gave a t) Q = Q a t

-- Where `body` returns from `s`, the value and the state it leaves satisfy `Q`.
pub record Ends {A : Type 0} (body : Body A) (s : SyncState) (Q : A → SyncState → Type 0)
    : Type 0 where
  pub reached : EndsIn (body s) Q

pub Ends-at :
    {A : Type 0} {body : Body A} {s : SyncState} {Q : A → SyncState → Type 0}
    → Ends body s Q
    → (a : A) (t : SyncState) → body s ≡ gave a t
    → Q a t
Ends-at {Q = Q} ends a t h = along (λ r. EndsIn r Q) h ends.reached

-- How each step of a body runs.
module _ {B : Type 0} (s : SyncState) where
  after-check :
      (condition : Bool) (error : NotionError) (next : Unit {0} → Body B)
      → (check condition error >>= next) s ≡ (if condition then next tt s else threw error)
  unfolding ◌>>=◌ check
  after-check true error next = refl
  after-check false error next = refl

  after-modify :
      (f : SyncState → SyncState) (next : Unit {0} → Body B) → (modify f >>= next) s ≡ next tt (f s)
  unfolding ◌>>=◌ modify
  after-modify f next = refl

  run-when :
      (condition : Bool) (one other : Body B)
      → when condition one other s ≡ (if condition then one s else other s)
  unfolding when
  run-when condition one other = refl

  after-done : (b : B) → done b s ≡ gave b s
  unfolding done
  after-done b = refl

last-modify : (s : SyncState) (f : SyncState → SyncState) → modify f s ≡ gave tt (f s)
unfolding modify
last-modify s f = refl

last-check :
    (s : SyncState) (condition : Bool) (error : NotionError)
    → check condition error s ≡ (if condition then gave tt s else threw error)
unfolding check
last-check s condition error = refl

module _ {A B : Type 0} (s : SyncState) where
  after-bind : (body : Body A) (next : A → Body B) → (body >>= next) s ≡ after (body s) next
  unfolding ◌>>=◌
  after-bind body next = refl

  after-present :
      (value : Option A) (error : NotionError) (next : A → Body B)
      → (present value error >>= next) s ≡ elim value [ none ↦ threw error | some a ↦ next a s ]
  unfolding ◌>>=◌ present
  after-present none error next = refl
  after-present (some a) error next = refl

  after-ask : (f : SyncState → A) (next : A → Body B) → (ask f >>= next) s ≡ next (f s) s
  unfolding ◌>>=◌ ask
  after-ask f next = refl

  after-if_present :
      (value : Option A) (next : A → Body B) (otherwise : Body B)
      → if_present value next otherwise s ≡ elim value [ none ↦ otherwise s | some a ↦ next a s ]
  unfolding if_present
  after-if_present none next otherwise = refl
  after-if_present (some a) next otherwise = refl

Ends-after :
    {A B : Type 0} {Q : B → SyncState → Type 0} {R : A → SyncState → Type 0} (next : A → Body B)
    (r : Outcome A)
    → EndsIn r R
    → ((a : A) (t : SyncState) → R a t → Ends (next a) t Q)
    → EndsIn (after r next) Q
Ends-after next (threw e) reached rest = tt
Ends-after next (gave a t) reached rest = (rest a t reached).reached

in-weaken :
    {A : Type 0} {R Q : A → SyncState → Type 0} (r : Outcome A)
    → EndsIn r R
    → ((a : A) (t : SyncState) → R a t → Q a t)
    → EndsIn r Q
in-weaken (threw e) reached f = tt
in-weaken (gave a t) reached f = f a t reached

in-any : {A : Type 0} (r : Outcome A) → EndsIn r (λ a t. Unit)
in-any (threw e) = tt
in-any (gave a t) = tt

pub Ends-any : {A : Type 0} (body : Body A) (s : SyncState) → Ends body s (λ a t. Unit)
Ends-any body s = record { reached = in-any (body s) }

pub Ends-weaken :
    {A : Type 0} {body : Body A} {s : SyncState} {R Q : A → SyncState → Type 0}
    → Ends body s R
    → ((a : A) (t : SyncState) → R a t → Q a t)
    → Ends body s Q
Ends-weaken {body = body} {s = s} ends f = record { reached = in-weaken (body s) ends.reached f }

module _ {A B : Type 0} {s : SyncState} {Q : B → SyncState → Type 0} where
  pub Ends-call :
      {R : A → SyncState → Type 0} {body : Body A} {next : A → Body B}
      → Ends body s R
      → ((a : A) (t : SyncState) → R a t → Ends (next a) t Q)
      → Ends (body >>= next) s Q
  Ends-call {body = body} {next = next} ends rest = record {
    reached = rw (after-bind s body next) (Ends-after next (body s) ends.reached rest);
  }

  -- A step that only reads.
  pub Ends-pass :
      {body : Body A} {next : A → Body B}
      → Ends body s (λ a t. t ≡ s)
      → ((a : A) → Ends (next a) s Q)
      → Ends (body >>= next) s Q
  Ends-pass {next = next} reads rest =
      Ends-call reads (λ a t same. along (λ u. Ends (next a) u Q) (sym same) (rest a))

  present-reached :
      (value : Option A) (error : NotionError) (next : A → Body B)
      → ((a : A) → value ≡ some a → Ends (next a) s Q)
      → EndsIn (elim value [ none ↦ threw error | some a ↦ next a s ]) Q
  present-reached none error next rest = tt
  present-reached (some a) error next rest = (rest a refl).reached

  pub Ends-present :
      {value : Option A} (error : NotionError) {next : A → Body B}
      → ((a : A) → value ≡ some a → Ends (next a) s Q)
      → Ends (present value error >>= next) s Q
  Ends-present {value = value} error {next = next} rest = record {
    reached = rw (after-present s value error next) (present-reached value error next rest);
  }

  pub Ends-ask :
      (f : SyncState → A) (next : A → Body B) → Ends (next (f s)) s Q → Ends (ask f >>= next) s Q
  Ends-ask f next rest = record { reached = rw (after-ask s f next) rest.reached }

  if_present-reached :
      (value : Option A) (next : A → Body B) (otherwise : Body B)
      → ((a : A) → value ≡ some a → Ends (next a) s Q)
      → (value ≡ none → Ends otherwise s Q)
      → EndsIn (elim value [ none ↦ otherwise s | some a ↦ next a s ]) Q
  if_present-reached none next otherwise found missing = (missing refl).reached
  if_present-reached (some a) next otherwise found missing = (found a refl).reached

  pub Ends-if_present :
      {value : Option A} {next : A → Body B} {otherwise : Body B}
      → ((a : A) → value ≡ some a → Ends (next a) s Q)
      → (value ≡ none → Ends otherwise s Q)
      → Ends (if_present value next otherwise) s Q
  Ends-if_present {value = value} {next = next} {otherwise = otherwise} found missing = record {
    reached =
        rw (after-if_present s value next otherwise)
          (if_present-reached value next otherwise found missing);
  }

module _ {B : Type 0} {s : SyncState} {Q : B → SyncState → Type 0} where
  check-reached :
      (condition : Bool) (error : NotionError) (next : Unit {0} → Body B)
      → (condition ≡ true → Ends (next tt) s Q)
      → EndsIn (if condition then next tt s else threw error) Q
  check-reached true error next rest = (rest refl).reached
  check-reached false error next rest = tt

  pub Ends-check :
      {condition : Bool} (error : NotionError) (next : Unit {0} → Body B)
      → (condition ≡ true → Ends (next tt) s Q)
      → Ends (check condition error >>= next) s Q
  Ends-check {condition = condition} error next rest = record {
    reached = rw (after-check s condition error next) (check-reached condition error next rest);
  }

  pub Ends-modify :
      (f : SyncState → SyncState) (next : Unit {0} → Body B)
      → Ends (next tt) (f s) Q
      → Ends (modify f >>= next) s Q
  Ends-modify f next rest = record { reached = rw (after-modify s f next) rest.reached }

  when-reached :
      (condition : Bool) (one other : Body B)
      → (condition ≡ true → Ends one s Q)
      → (condition ≡ false → Ends other s Q)
      → EndsIn (if condition then one s else other s) Q
  when-reached true one other holds_then fails_then = (holds_then refl).reached
  when-reached false one other holds_then fails_then = (fails_then refl).reached

  pub Ends-when :
      {condition : Bool} {one other : Body B}
      → (condition ≡ true → Ends one s Q)
      → (condition ≡ false → Ends other s Q)
      → Ends (when condition one other) s Q
  Ends-when {condition = condition} {one = one} {other = other} holds_then fails_then = record {
    reached =
        rw (run-when s condition one other)
          (when-reached condition one other holds_then fails_then);
  }

  pub Ends-done : (b : B) → Q b s → Ends (done b) s Q
  Ends-done b q = record { reached = rw (after-done s b) q }

check-ended :
    {s : SyncState} (Q : Unit {0} → SyncState → Type 0) (condition : Bool) (error : NotionError)
    → Q tt s
    → EndsIn (if condition then gave tt s else threw error) Q
check-ended Q true error q = q
check-ended Q false error q = tt

module _ {s : SyncState} {Q : Unit {0} → SyncState → Type 0} where
  pub Ends-last_modify : (f : SyncState → SyncState) → Q tt (f s) → Ends (modify f) s Q
  Ends-last_modify f q = record { reached = rw (last-modify s f) q }

  pub Ends-last_check :
      (condition : Bool) (error : NotionError) → Q tt s → Ends (check condition error) s Q
  Ends-last_check condition error q = record {
    reached = rw (last-check s condition error) (check-ended Q condition error q);
  }
