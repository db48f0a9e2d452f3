-- ===== src/Context.antt =====
-- app/context: the lanes of notes that the agents keep, and their compaction. Lengths and slices of
-- texts, and a number in an f-string, are Python's, on code points: they are a parameter. The
-- thresholds are hundredths, and the ratio is compared without a division: in floats it is the same
-- for budgets below 2 ^ 50.
pub mod Bounds
mod Tests
use cloud_agent_platform_dem.Prelude.{
  ℕ, zero, suc, ◌+◌, ◌-◌, ◌*◌, ◌/◌, max, String, Bool, true, false, Option, none, some, List, [],
  ◌∷◌, ◌++◌, map, length, leb, ltb, str_eq, select, if◌then◌else◌,
}
use cloud_agent_platform_dem.Text.{concat, join}
use cloud_agent_platform_dem.Value.{Fields, end, field, int}
use cloud_agent_platform_dem.Prelude.Int.{ℤ, pos}
use cloud_agent_platform_dem.Domain.{DateTime}

-- `len(text)`, `text[:n]` and `str(n)`
pub record Characters : Type 0 where
  pub count : String → ℕ
  pub take_chars : ℕ → String → String
  pub decimal : ℕ → String

pub data ContextRole : Type 0 where
  global manager explorer developer reviewer : ContextRole

pub data CompactionLevel : Type 0 where
  normal light medium heavy : CompactionLevel

pub record ContextEntry : Type 0 where
  pub content : String
  pub role : String
  pub metadata : Fields
  pub id : String
  pub created_at : DateTime

pub record ContextSnapshot : Type 0 where
  pub lane : ContextRole
  pub entries : List ContextEntry
  pub estimated_tokens : ℕ
  pub summary : String

pub record ContextBudget : Type 0 where
  pub max_tokens : ℕ
  pub light_threshold : ℕ
  pub medium_threshold : ℕ
  pub heavy_threshold : ℕ

abbrev pub default_budget : ContextBudget
default_budget = record {
  max_tokens = 8000;
  light_threshold = 50;
  medium_threshold = 75;
  heavy_threshold = 90;
}

-- `used_tokens / max(1, max_tokens) >= threshold`
abbrev pub reaches : ContextBudget → ℕ → ℕ → Bool
reaches b used_tokens threshold = leb (threshold * max 1 b.max_tokens) (used_tokens * 100)

-- `ContextBudget.level_for`, which `CompactionPolicy.level_for` calls.
unfoldable pub level_for : ContextBudget → ℕ → CompactionLevel
level_for b used_tokens =
    if reaches b used_tokens b.heavy_threshold
    then heavy
    else (if reaches b used_tokens b.medium_threshold
        then medium
        else (if reaches b used_tokens b.light_threshold then light else normal))

abbrev drop : {A : Type 0} → ℕ → List A → List A
drop zero xs = xs
drop (suc n) [] = []
drop (suc n) (x ∷ xs) = drop n xs

abbrev take : {A : Type 0} → ℕ → List A → List A
take zero xs = []
take (suc n) [] = []
take (suc n) (x ∷ xs) = x ∷ take n xs

-- `xs[-n:]` and `xs[:-n]`, for an `n` above zero.
unfoldable pub last_items : {A : Type 0} → ℕ → List A → List A
last_items n xs = drop (length xs - n) xs

unfoldable pub but_last_items : {A : Type 0} → ℕ → List A → List A
but_last_items n xs = take (length xs - n) xs

module _ (c : Characters) where
  unfoldable pub entry_tokens : ContextEntry → ℕ
  entry_tokens e = max 1 (c.count e.content / 4)

  unfoldable pub estimated_tokens : List ContextEntry → ℕ
  unfolding entry_tokens
  estimated_tokens [] = 0
  estimated_tokens (e ∷ es) = entry_tokens e + estimated_tokens es

  unfoldable pub summary_text : ℕ → List ContextEntry → String
  unfolding concat join
  summary_text max_summary_chars old_entries =
      let summary =
        join "\n" (map (λ e. concat ("- " ∷ c.take_chars 200 e.content ∷ [])) old_entries) in
      if ltb max_summary_chars (c.count summary)
      then concat (c.take_chars max_summary_chars summary ∷ "\n..." ∷ [])
      else summary

  unfoldable pub summary_entry : String → DateTime → ℕ → List ContextEntry → ContextEntry
  unfolding summary_text
  summary_entry id now max_summary_chars old_entries = record {
    content = concat (
        "Compacted "
        ∷ c.decimal (length old_entries)
        ∷ " entries:\n"
        ∷ summary_text max_summary_chars old_entries
        ∷ []);
    role = "summary";
    metadata = field "compacted_count" (int (pos (length old_entries))) end;
    id = id;
    created_at = now;
  }

  -- `_summarize`
  unfoldable pub summarize :
      String → DateTime → ℕ → List ContextEntry → List ContextEntry → List ContextEntry
  unfolding summary_entry
  summarize id now max_summary_chars [] keep = keep
  summarize id now max_summary_chars (e ∷ es) keep =
      summary_entry id now max_summary_chars (e ∷ es) ∷ keep

  -- `ContextCompactor.compact`; the summary that it may make has the id and the time given.
  unfoldable pub compact :
      String → DateTime → CompactionLevel → List ContextEntry → List ContextEntry
  unfolding summarize last_items but_last_items
  compact id now normal entries = entries
  compact id now light entries = last_items 20 entries
  compact id now medium entries =
      summarize id now 2000 (but_last_items 10 entries) (last_items 10 entries)
  compact id now heavy entries =
      summarize id now 1000 (but_last_items 5 entries) (last_items 5 entries)

  -- `ContextLane.append`, on the entries of the lane.
  unfoldable pub append :
      ContextBudget → String → DateTime → ContextEntry → List ContextEntry → List ContextEntry
  unfolding compact level_for estimated_tokens
  append b id now entry entries =
      compact id now (level_for b (estimated_tokens (entries ++ entry ∷ [])))
        (entries ++ entry ∷ [])

  unfoldable pub snapshot : ContextRole → List ContextEntry → ContextSnapshot
  unfolding estimated_tokens join select
  snapshot role entries = record {
    lane = role;
    entries = entries;
    estimated_tokens = estimated_tokens entries;
    summary = join "\n" (map (λ e. e.content) (select (λ e. str_eq e.role "summary") entries));
  }
