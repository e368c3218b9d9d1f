-- ===== src/Transfer/Receiver/Downloads.antt =====
-- getDownloadsFolder of src/core/transfer.cpp, its branch for Linux (the other asks Windows). What
-- the environment says is an argument: which paths are directories, the two variables, what fgets
-- reads of the output of `xdg-user-dir DOWNLOAD` (`none` if it cannot be run or prints nothing), and when
-- two paths are equal.
use net_transfer.Base.{
  ℕ, ◌≡◌, refl, Bool, true, false, not, ◌&&◌, ◌==◌, List, [], ◌∷◌, Option, none, some,
  if◌then◌else◌, ◌⊎◌, inl, inr, Bool-cases,
}

pub record Environment : Type 0 where
  pub is_directory : List ℕ → Bool
  pub same_path : List ℕ → List ℕ → Bool
  pub xdg : Option (List ℕ)
  pub line : Option (List ℕ)
  pub home : Option (List ℕ)

-- "."
abbrev pub here : List ℕ
here = 0x2E ∷ []

-- A newline at the end is taken off.
unfoldable pub without_newline : List ℕ → List ℕ
without_newline [] = []
without_newline (c ∷ []) = if c == 0x0A then [] else c ∷ []
without_newline (c ∷ d ∷ cs) = c ∷ without_newline (d ∷ cs)

module _ (env : Environment) where
  open env use {is_directory, same_path}

  abbrev is_home : Option (List ℕ) → List ℕ → Bool
  is_home none candidate = false
  is_home (some home) candidate = same_path candidate home

  unfoldable pub from_user_dir : Option (List ℕ) → List ℕ
  unfolding without_newline
  from_user_dir none = here
  from_user_dir (some line) =
      let candidate = without_newline line in
      if is_directory candidate && not (is_home env.home candidate) then candidate else here

  unfoldable pub from_variable : Option (List ℕ) → List ℕ
  unfolding from_user_dir
  from_variable none = from_user_dir env.line
  from_variable (some dir) = if is_directory dir then dir else from_user_dir env.line

  unfoldable pub get_downloads_folder : List ℕ
  unfolding from_variable
  get_downloads_folder = from_variable env.xdg

  -- A directory that is not the home directory.
  abbrev pub IsUserDir : List ℕ → Type 0
  IsUserDir dir = (is_directory dir ≡ true) × (is_home env.home dir ≡ false)

  from_user_dir-IsUserDir :
      (line : Option (List ℕ)) → (from_user_dir line ≡ here) ⊎ IsUserDir (from_user_dir line)
  unfolding from_user_dir
  from_user_dir-IsUserDir none = inl refl
  from_user_dir-IsUserDir (some line) =
      let candidate = without_newline line in
      elim (Bool-cases (is_directory candidate)) [
        | inr other ↦ inl (rw (other, from_user_dir) refl)
        | inl dir ↦ elim (Bool-cases (is_home env.home candidate)) [
          | inl home ↦ inl (rw (dir, home, from_user_dir) refl)
          | inr away ↦ inr (rw (dir, away, from_user_dir) (dir, away))
        ]
      ]

  from_variable-Chosen :
      (xdg : Option (List ℕ))
      → (from_variable xdg ≡ here)
        ⊎ ((xdg ≡ some (from_variable xdg)) × (is_directory (from_variable xdg) ≡ true))
        ⊎ IsUserDir (from_variable xdg)
  unfolding from_variable
  from_variable-Chosen none = elim (from_user_dir-IsUserDir env.line) [
    | inl last ↦ inl last
    | inr user ↦ inr (inr user)
  ]
  from_variable-Chosen (some dir) = elim (Bool-cases (is_directory dir)) [
    | inl good ↦ inr (inl (rw (good, from_variable) (refl, good)))
    | inr bad ↦ elim (from_user_dir-IsUserDir env.line) [
      | inl last ↦ inl (rw (bad, from_variable) last)
      | inr user ↦ inr (inr (rw (bad, from_variable) user))
    ]
  ]

  -- The folder is a directory, or the current one as a last resort; and it is the home directory only if
  -- XDG_DOWNLOAD_DIR says so.
  pub get_downloads_folder_lem :
      (get_downloads_folder ≡ here)
      ⊎ ((env.xdg ≡ some get_downloads_folder) × (is_directory get_downloads_folder ≡ true))
      ⊎ IsUserDir get_downloads_folder
  unfolding get_downloads_folder
  get_downloads_folder_lem = from_variable-Chosen env.xdg
