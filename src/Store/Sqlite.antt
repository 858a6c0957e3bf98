-- ===== src/Store/Sqlite.antt =====
-- `SQLiteSpeakerStore`: its SQL statements on the two tables.
use Prim.Native.Nat.{max}
use cuebee_speaker_serving.Base.{
  ℕ, zero, suc, ◌+◌, Bool, true, false, String, List, [], ◌∷◌, Option, none, some, ltb,
  if◌then◌else◌,
}
use cuebee_speaker_serving.Base.Int.{ℤ, pos, negsuc}
use cuebee_speaker_serving.Base.Eq.{string_eq, pair_eq, text_eq}
use cuebee_speaker_serving.Base.Dict.{Dict, get, values, without}
use cuebee_speaker_serving.Base.Float.{Float}
use cuebee_speaker_serving.Domain.{
  SpeakerProfile, Result, ok, raised, key_error, runtime_error, overflow_error, ◌>>=◌, ◌>>◌,
}
use cuebee_speaker_serving.Store.{
  Store, SessionKey, ProfileKey, session_eq, key_of, session_profiles, new_profile, get_or,
  inserted,
}
use cuebee_speaker_serving.Store.SpeakerId.{Digits, suffix}

-- `cursor.rowcount == 1`
abbrev is_one : ℕ → Bool
is_one zero = false
is_one (suc zero) = true
is_one (suc (suc n)) = false

-- 2 ^ 63
abbrev pub int_limit : ℕ
int_limit = 9_223_372_036_854_775_808

-- Whether an integer has 64 bits.
abbrev pub fits : ℤ → Bool
fits (pos n) = ltb n int_limit
fits (negsuc n) = ltb n int_limit

-- An integer as an argument of a statement.
abbrev pub bound_int : ℤ → Result (Unit {0})
bound_int n =
    if fits n
    then ok tt
    else raised (overflow_error "Python int too large to convert to SQLite INTEGER")

-- A float in a column that is NOT NULL: NaN, which is not equal to itself, is NULL there. The
-- IntegrityError is a `runtime_error` here.
abbrev pub not_null : {R : Type 0} ⦃float : Float R⦄ → R → Result (Unit {0})
not_null ⦃float⦄ q =
    if float.eq q q
    then ok tt
    else raised (runtime_error "NOT NULL constraint failed: speaker_profiles")

-- A column is checked where a row is updated.
abbrev row_checked : {R : Type 0} ⦃float : Float R⦄ → R → ℕ → Result (Unit {0})
row_checked q zero = ok tt
row_checked q (suc n) = not_null q

module _ {R V : Type 0} where
  module _ ⦃digits : Digits⦄ where
    -- `max(suffixes, default=0)`
    unfoldable pub max_suffix : List (SpeakerProfile R V) → Result ℕ
    max_suffix [] = ok 0
    max_suffix (p ∷ rows) = do n ← suffix p.speaker_id; m ← max_suffix rows; ok (max (get_or 0 n) m)

    -- The branches of `create_profile` on the row of the counter: the number that is allocated.
    abbrev pub allocated : Store R V → SessionKey → Option ℕ → Result ℕ
    allocated st k none = max_suffix (values (session_profiles k st.profiles)) >>= λ n. ok (n + 1)
    allocated st k (some n) = ok n

    abbrev pub next_speaker : Store R V → SessionKey → Result ℕ
    next_speaker st k = allocated st k (get k st.next_ids)

  -- The INSERT of the profile fails on a primary key that is there, with an IntegrityError, which is
  -- a `runtime_error` here, and the transaction is rolled back.
  abbrev committed :
      Store R V
      → SpeakerProfile R V
      → Option (SpeakerProfile R V)
      → Result (Store R V × SpeakerProfile R V)
  committed st' p none = ok (st', p)
  committed st' p (some old) = raised (runtime_error "UNIQUE constraint failed: speaker_profiles")

  -- The INSERT of the profile, behind the counter.
  abbrev pub insert_row :
      ⦃float : Float R⦄
      → Store R V
      → SessionKey
      → ℕ
      → SpeakerProfile R V
      → Result (Store R V × SpeakerProfile R V)
  insert_row st k n p = do
    bound_int p.last_active_ms
    not_null p.quality_ema
    committed (inserted st k n p) p (get (key_of p) st.profiles)

  -- Every exception rolls the transaction back.
  unfoldable pub create_profile :
      ⦃float : Float R⦄ ⦃digits : Digits⦄
      → Store R V
      → SessionKey
      → V
      → R
      → ℤ
      → Result (Store R V × SpeakerProfile R V)
  create_profile st k centroid quality last_active_ms = do
    n ← next_speaker st k
    bound_int (pos (n + 1))
    insert_row st k n (new_profile k n centroid quality last_active_ms)

  -- The UPDATE by the primary key, and its count of rows.
  unfoldable pub update_row :
      ProfileKey
      → (SpeakerProfile R V → SpeakerProfile R V)
      → Dict ProfileKey (SpeakerProfile R V)
      → Dict ProfileKey (SpeakerProfile R V) × ℕ
  update_row j f [] = ([], 0)
  update_row j f ((i, p) ∷ rows) =
      let (rows', n) = update_row j f rows in
      if (pair_eq {A = SessionKey} {B = List ℕ}).same i j
      then ((i, f p) ∷ rows', suc n)
      else ((i, p) ∷ rows', n)

  -- The columns that `update_profile` sets.
  abbrev pub overwrite : SpeakerProfile R V → SpeakerProfile R V → SpeakerProfile R V
  overwrite new old = record old {
    centroid = new.centroid;
    sample_count = new.sample_count;
    quality_ema = new.quality_ema;
    last_active_ms = new.last_active_ms;
    display_name = new.display_name;
  }

  abbrev one_updated : Store R V → Dict ProfileKey (SpeakerProfile R V) × ℕ → Result (Store R V)
  one_updated st (rows, n) =
      if is_one n
      then ok (record st { profiles = rows })
      else raised (key_error "speaker profile not found")

  unfoldable pub update_profile :
      ⦃float : Float R⦄ → Store R V → SpeakerProfile R V → Result (Store R V)
  update_profile st p =
      let out = update_row (key_of p) (overwrite p) st.profiles in
      do
        bound_int (pos p.sample_count)
        bound_int p.last_active_ms
        row_checked p.quality_ema out.1
        one_updated st out

  unfoldable pub rename_speaker : Store R V → SessionKey → List ℕ → Option String → Store R V × Bool
  rename_speaker st k id name =
      let (rows, n) = update_row (k, id) (λ p. record p { display_name = name }) st.profiles in
      (record st { profiles = rows }, is_one n)

  unfoldable pub delete_session : Store R V → SessionKey → Store R V
  delete_session st k = record {
    profiles = without (λ j. session_eq.same j.0 k) st.profiles;
    next_ids = without (λ j. session_eq.same j k) st.next_ids;
  }
