-- ===== src/App/Format.antt =====
-- What NetTransfer uses of nlohmann::json: texts, and values with texts and numbers under keys.
use net_transfer.Base.{ℕ, ◌≡◌, Bool, true, false, List, Option, some, same, ◌||◌}

pub record Json : Type 1 where
  pub Value : Type 0
  -- json::object()
  pub empty : Value
  -- `stream >> value` on a value that is an empty object: whether it did not throw, and what the value
  -- then is. After an exception that is what was parsed so far.
  pub parse : List ℕ → Bool × Value
  -- dump(4); `none` where it throws, on a text that is not UTF-8
  pub dump : Value → Option (List ℕ)
  -- an object or null: a value that `operator[]` with a key and an assignment do not throw on
  pub is_keyed : Value → Bool
  pub contains : Value → List ℕ → Bool
  pub set_text : Value → List ℕ → List ℕ → Value
  pub set_number : Value → List ℕ → ℕ → Value
  -- the conversions to std::string and uint16_t; `none` where they throw
  pub get_text : Value → List ℕ → Option (List ℕ)
  pub get_number : Value → List ℕ → Option ℕ
  pub parse_dump : (v : Value) (t : List ℕ) → dump v ≡ some t → parse t ≡ (true, v)
  pub empty_keyed : is_keyed empty ≡ true
  pub contains_empty : (k : List ℕ) → contains empty k ≡ false
  pub text_keyed : (v : Value) (k x : List ℕ) → is_keyed (set_text v k x) ≡ true
  pub number_keyed : (v : Value) (k : List ℕ) (n : ℕ) → is_keyed (set_number v k n) ≡ true
  pub contains_text :
      (v : Value) (k x g : List ℕ)
      → is_keyed v ≡ true
      → contains (set_text v k x) g ≡ (same k g || contains v g)
  pub contains_number :
      (v : Value) (k : List ℕ) (n : ℕ) (g : List ℕ)
      → is_keyed v ≡ true
      → contains (set_number v k n) g ≡ (same k g || contains v g)
  pub get_text_number :
      (v : Value) (k : List ℕ) (n : ℕ) (g : List ℕ)
      → same k g ≡ false
      → get_text (set_number v k n) g ≡ get_text v g
  pub get_text_text : (v : Value) (k x : List ℕ) → get_text (set_text v k x) k ≡ some x
  pub get_number_number :
      (v : Value) (k : List ℕ) (n : ℕ) → get_number (set_number v k n) k ≡ some n
