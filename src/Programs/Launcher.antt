-- ===== src/Programs/Launcher.antt =====
-- src/launcher.cpp: the program that the launcher starts, from the launcher's own path.
use net_transfer.Base.{
  ℕ, ◌≡◌, refl, ap, ◌∙◌, true, false, List, [], ◌∷◌, ◌++◌, Option, none, some, ◌==◌, if◌then◌else◌,
  length, take, take-append, All, suc,
}

-- std::wstring::rfind
unfoldable pub rfind : ℕ → List ℕ → Option ℕ
rfind c [] = none
rfind c (x ∷ xs) = elim (rfind c xs) [
  | some i ↦ some (suc i)
  | none ↦ if x == c then some 0 else none
]

-- exePath.substr(0, pos), where `none` is npos: then the whole text.
unfoldable pub cut : List ℕ → Option ℕ → List ℕ
cut path none = path
cut path (some pos) = take pos path

-- "\app\NetTransfer.exe"
abbrev pub program : List ℕ
program =
    0x5C ∷ 0x61 ∷ 0x70 ∷ 0x70 ∷ 0x5C ∷ 0x4E ∷ 0x65 ∷ 0x74 ∷ 0x54 ∷ 0x72 ∷ 0x61 ∷ 0x6E ∷ 0x73 ∷ 0x66
    ∷ 0x65 ∷ 0x72 ∷ 0x2E ∷ 0x65 ∷ 0x78 ∷ 0x65 ∷ []

unfoldable pub launched : List ℕ → List ℕ
unfolding rfind cut
launched path = cut path (rfind 0x5C path) ++ program

rfind-none : (c : ℕ) (xs : List ℕ) → All (λ x. (x == c) ≡ false) xs → rfind c xs ≡ none
unfolding rfind
rfind-none c [] all = refl
rfind-none c (x ∷ xs) (other, all) = rw (rfind-none c xs all, rfind, other) refl

rfind-append :
    (c : ℕ) (front xs : List ℕ)
    → (c == c) ≡ true
    → All (λ x. (x == c) ≡ false) xs
    → rfind c (front ++ c ∷ xs) ≡ some (length front)
unfolding rfind
rfind-append c [] xs here all = rw (rfind-none c xs all, rfind, here) refl
rfind-append c (x ∷ front) xs here all = rw (rfind-append c front xs here all, rfind) refl

-- A launcher in a directory, whatever its own name is, starts app\NetTransfer.exe of that directory.
pub launched_lem :
    (directory name : List ℕ)
    → All (λ x. (x == 0x5C) ≡ false) name
    → launched (directory ++ 0x5C ∷ name) ≡ directory ++ program
unfolding launched cut
launched_lem directory name all =
    ap (λ pos. cut (directory ++ 0x5C ∷ name) pos ++ program)
      (rfind-append 0x5C directory name refl all)
    ∙ ap (λ front. front ++ program) (take-append directory (0x5C ∷ name))
