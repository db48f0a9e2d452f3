-- ===== src/FileTools/Matches.antt =====
-- How many matches the search tool gives.
use cloud_agent_platform_dem.Prelude.{
  ℕ, suc, length, length-append, ◌≤◌, ◌<◌, arith, ◌≡◌, Bool-cases, inl, inr, String, Bool, List, [],
  ◌∷◌, ◌++◌,
}
use cloud_agent_platform_dem.Prelude.Int.{pos}
use cloud_agent_platform_dem.Prelude.Exec.{Result, ok, err}
use cloud_agent_platform_dem.FileTools.Reading.{FileSystem}
use cloud_agent_platform_dem.FileTools.Search.{
  Searching, Match, is_full, search_lines, search_text, search_file, search_files, then_try,
}

length-search_lines-le :
    (matches : String → Bool) (n : ℕ) (path : String) (number : ℕ) (ls : List String)
    (found : List Match)
    → length found < n
    → length (search_lines matches (pos n) path number ls found) ≤ n
unfolding search_lines
length-search_lines-le matches n path number [] found h = omega (arith, h)
length-search_lines-le matches n path number (l ∷ ls) found h =
    let next = found ++ record { path = path; line = number; text = l } ∷ [] in
    let longer : length next ≡ suc (length found) =
      omega (arith, length-append found (record { path = path; line = number; text = l } ∷ [])) in
    elim (Bool-cases (matches l)) [
      | inr e ↦ rw e (length-search_lines-le matches n path (suc number) ls found h)
      | inl e ↦ elim (Bool-cases (is_full (pos n) next)) [
        | inl f ↦ rw (e, f) (omega (arith, h, longer))
        | inr f ↦
            rw (e, f)
              (length-search_lines-le matches n path (suc number) ls next (ground (arith, f)))
      ]
    ]

-- A list of matches, if one is given, of at most so many.
abbrev IsWithin : ℕ → Result (List Match) → Type 0
IsWithin n (ok found) = length found ≤ n
IsWithin n (err x) = Unit

module _ {E : Type 0} (fs : FileSystem E) (searching : Searching E) where
  search_text-IsWithin :
      (matches : String → Bool) (n : ℕ) (path : String) (text : Result String) (found : List Match)
      → length found < n
      → IsWithin n (search_text fs searching matches (pos n) path text found)
  search_text-IsWithin matches n path (ok text) found h =
      length-search_lines-le matches n path 1 (searching.split_lines text) found h
  search_text-IsWithin matches n path (err x) found h =
      elim (Bool-cases (searching.is_unreadable x)) [
        | inl e ↦ rw e (omega (arith, h))
        | inr e ↦ rw e tt
      ]

  search_file-IsWithin :
      (matches : String → Bool) (n : ℕ) (s : E) (path : String) (found : List Match)
      → length found < n
      → IsWithin n (search_file fs searching matches (pos n) s path found)
  unfolding search_file
  search_file-IsWithin matches n s path found h = elim (Bool-cases (fs.is_file path s)) [
    | inl e ↦ rw e (search_text-IsWithin matches n path (searching.read_strict path s) found h)
    | inr e ↦ rw e (omega (arith, h))
  ]

  then_try-IsWithin :
      (n : ℕ) (r : Result (List Match)) (next : List Match → Result (List Match))
      → IsWithin n r
      → ((found : List Match) → length found ≤ n → IsWithin n (next found))
      → IsWithin n (then_try fs searching r next)
  then_try-IsWithin n (ok found) next h k = k found h
  then_try-IsWithin n (err x) next h k = tt

  -- The search of any paths, from at most `n` matches and with a limit of `n`, gives at most `n`
  -- matches when it does not raise, whatever the files and the pattern are; for a limit of 0 too.
  pub search_files-IsWithin :
      (matches : String → Bool) (n : ℕ) (s : E) (ps : List String) (found : List Match)
      → length found ≤ n
      → IsWithin n (search_files fs searching matches (pos n) s ps found)
  unfolding search_files
  search_files-IsWithin matches n s [] found h = h
  search_files-IsWithin matches n s (p ∷ ps) found h = elim (Bool-cases (is_full (pos n) found)) [
    | inl e ↦ rw e h
    | inr e ↦ rw e (
        then_try-IsWithin n (search_file fs searching matches (pos n) s p found)
          (search_files fs searching matches (pos n) s ps)
          (search_file-IsWithin matches n s p found (ground (arith, e)))
          (search_files-IsWithin matches n s ps))
  ]
