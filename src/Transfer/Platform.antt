-- ===== src/Transfer/Platform.antt =====
-- What the transfers rely on outside of src/: incremental hashing, paths, and files by their path.
use net_transfer.Base.{
  ℕ, ◌≡◌, ◌++◌, List, [], Bool, true, false, Option, none, some, same, if◌then◌else◌,
}

-- EVP_DigestInit_ex, EVP_DigestUpdate and EVP_DigestFinal_ex with EVP_sha256. Hashing a text piece by
-- piece is hashing it at once, and an empty piece changes nothing.
pub record Hash : Type 1 where
  pub State : Type 0
  pub start : State
  pub update : State → List ℕ → State
  pub finish : State → List ℕ
  pub update_append : (s : State) (xs ys : List ℕ) → update (update s xs) ys ≡ update s (xs ++ ys)
  pub update_nil : (s : State) → update s [] ≡ s

-- std::filesystem::path operations and std::to_string, on texts.
pub record Paths : Type 0 where
  pub join : List ℕ → List ℕ → List ℕ
  pub stem : List ℕ → List ℕ
  pub extension : List ℕ → List ℕ
  pub filename : List ℕ → List ℕ
  pub to_string : ℕ → List ℕ

-- The files that exist, with their contents.
abbrev pub Disk : Type 0
Disk = List ℕ → Option (List ℕ)

abbrev pub exists : Disk → List ℕ → Bool
exists disk path = elim (disk path) [ none ↦ false | some contents ↦ true ]

abbrev pub contents_of : Option (List ℕ) → List ℕ
contents_of none = []
contents_of (some contents) = contents

-- Creating or truncating a file, appending to it, and removing it.
abbrev pub put : Disk → List ℕ → List ℕ → Disk
put disk path contents p = if same p path then some contents else disk p

abbrev pub append_to : Disk → List ℕ → List ℕ → Disk
append_to disk path more = put disk path (contents_of (disk path) ++ more)

abbrev pub remove : Disk → List ℕ → Disk
remove disk path p = if same p path then none else disk p
