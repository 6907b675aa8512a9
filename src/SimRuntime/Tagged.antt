-- ===== src/SimRuntime/Tagged.antt =====
-- What stands behind each process that the scan attributes to a simulator.
use simpool.Common.{
  ℕ, ◌≡◌, refl, ◌⊎◌, inl, inr, ◌<◌, true, List, [], ◌∷◌, ◌++◌, Option, none, some, arith, All,
  Member, Bool-cases,
}
use simpool.Text.{Text, contains}
use simpool.SimRuntime.{
  SimRuntimeProcess, Sighted, EnvForPids, runtime_root_marker, lines, trim_space, cut_blank,
  above_init, pid_of, drop_plus, beside, with_pid, split_pid_line, device_tag_udid, is_launchd_sim,
  launchd_sim_udid, found_as, sight, sight_each, attribute, attribute_each, env_for_chunk, chunks,
  attribute_chunks, pid_chunk, sim_runtime_processes,
}
use simpool.Names.Parsing.{number_of}

-- A line of the listing of all processes.
abbrev pub FromArgv : Text → Text → Type 0
FromArgv out printed = Member printed (lines out)

-- A line of what ps printed when it was asked for the environments of a chunk of those processes of
-- the listing that run a program of a simulator's runtime.
abbrev pub FromEnv : Text → EnvForPids → Text → Type 0
FromEnv out env printed =
    (chunk : List ℕ) × Member chunk (chunks pid_chunk [] (sight_each (lines out)).need_env)
    × Member printed (lines (env_for_chunk env chunk))

-- The command line `line` in what was printed names the simulator: that of its launchd_sim by its
-- data directory, or that of a program of its runtime by the tag in its environment.
abbrev pub Names : Text → EnvForPids → Text → Text → Text → Type 0
Names out env printed line udid =
    (FromArgv out printed × (is_launchd_sim line ≡ true) × (launchd_sim_udid line ≡ some udid))
    ⊎ (FromEnv out env printed
        × (contains line runtime_root_marker ≡ true)
        × (device_tag_udid line ≡ some udid))

-- A process after the host's launchd, beside whose pid ps printed such a line.
abbrev pub Tagged : Text → EnvForPids → SimRuntimeProcess → Type 0
Tagged out env p =
    (1 < p.pid)
    × ((printed line : Text) × (split_pid_line printed ≡ some (p.pid, line))
        × Names out env printed line p.udid)

above_init_lem : (o : Option ℕ) (n : ℕ) → above_init o ≡ some n → 1 < n
above_init_lem none n h = cc
above_init_lem (some m) n h = ground arith

beside_lem :
    (after line : Text) (o : Option ℕ) (n : ℕ)
    → ((m : ℕ) → o ≡ some m → 1 < m)
    → beside after o ≡ some (n, line)
    → 1 < n
beside_lem after line none n f h = cc
beside_lem after line (some m) n f h = ground (arith, f m refl)

with_pid_lem :
    (o : Option (Text × Text)) (n : ℕ) (line : Text) → with_pid o ≡ some (n, line) → 1 < n
unfolding pid_of
with_pid_lem none n line h = cc
with_pid_lem (some (before, after)) n line h =
    beside_lem after line (pid_of before) n (above_init_lem (number_of (drop_plus before))) h

split_pid_line_lem :
    (printed : Text) (n : ℕ) (line : Text) → split_pid_line printed ≡ some (n, line) → 1 < n
unfolding split_pid_line
split_pid_line_lem printed n line h = with_pid_lem (cut_blank (trim_space printed)) n line h

module _ (out : Text) (env : EnvForPids) where
  append_Tagged :
      (xs ys : List SimRuntimeProcess)
      → All (Tagged out env) xs
      → All (Tagged out env) ys
      → All (Tagged out env) (xs ++ ys)
  append_Tagged [] ys h k = k
  append_Tagged (x ∷ xs) ys h k = (h.0, append_Tagged xs ys h.1 k)

  found_as-Tagged :
      (printed line : Text) (pid : ℕ) (o : Option Text)
      → split_pid_line printed ≡ some (pid, line)
      → ((udid : Text) → o ≡ some udid → Names out env printed line udid)
      → All (Tagged out env) (found_as pid o)
  found_as-Tagged printed line pid none e f = tt
  found_as-Tagged printed line pid (some udid) e f =
      ((split_pid_line_lem printed pid line e, (printed, line, e, f udid refl)), tt)

  sight-Tagged :
      (printed : Text) (o : Option (ℕ × Text)) (s : Sighted)
      → FromArgv out printed
      → split_pid_line printed ≡ o
      → All (Tagged out env) s.found
      → All (Tagged out env) (sight o s).found
  sight-Tagged printed none s from e h = h
  sight-Tagged printed (some (pid, line)) s from e h = elim (Bool-cases (is_launchd_sim line)) [
    | inl l ↦ rw l (
        append_Tagged (found_as pid (launchd_sim_udid line)) s.found
          (found_as-Tagged printed line pid (launchd_sim_udid line) e (λ u n. inl (from, l, n))) h)
    | inr l ↦ elim (Bool-cases (contains line runtime_root_marker)) [
      | inl m ↦ rw (l, m) h
      | inr m ↦ rw (l, m) h
    ]
  ]

  sight_each-Tagged :
      (ls : List Text)
      → ((l : Text) → Member l ls → FromArgv out l)
      → All (Tagged out env) (sight_each ls).found
  unfolding sight_each
  sight_each-Tagged [] from = tt
  sight_each-Tagged (l ∷ ls) from =
      sight-Tagged l (split_pid_line l) (sight_each ls) (from l (inl refl)) refl
        (sight_each-Tagged ls (λ k m. from k (inr m)))

  attribute-Tagged :
      (printed : Text) (o : Option (ℕ × Text))
      → FromEnv out env printed
      → split_pid_line printed ≡ o
      → All (Tagged out env) (attribute o)
  attribute-Tagged printed none from e = tt
  attribute-Tagged printed (some (pid, line)) from e =
      elim (Bool-cases (contains line runtime_root_marker)) [
        | inl m ↦
            rw m
              (found_as-Tagged printed line pid (device_tag_udid line) e (λ u n. inr (from, m, n)))
        | inr m ↦ rw m tt
      ]

  attribute_each-Tagged :
      (ls : List Text)
      → ((l : Text) → Member l ls → FromEnv out env l)
      → All (Tagged out env) (attribute_each ls)
  unfolding attribute_each
  attribute_each-Tagged [] from = tt
  attribute_each-Tagged (l ∷ ls) from =
      append_Tagged (attribute (split_pid_line l)) (attribute_each ls)
        (attribute-Tagged l (split_pid_line l) (from l (inl refl)) refl)
        (attribute_each-Tagged ls (λ k m. from k (inr m)))

  attribute_chunks-Tagged :
      (cs : List (List ℕ))
      → ((c : List ℕ) (l : Text)
          → Member c cs
          → Member l (lines (env_for_chunk env c))
          → FromEnv out env l)
      → All (Tagged out env) (attribute_chunks env cs)
  unfolding attribute_chunks
  attribute_chunks-Tagged [] from = tt
  attribute_chunks-Tagged (c ∷ cs) from =
      append_Tagged (attribute_each (lines (env_for_chunk env c))) (attribute_chunks env cs)
        (attribute_each-Tagged _ (λ l m. from c l (inl refl) m))
        (attribute_chunks-Tagged cs (λ d l k m. from d l (inr k) m))

-- The listing succeeded, and each process found is Tagged by it or by the environments.
abbrev pub AllTagged : Option Text → EnvForPids → Option (List SimRuntimeProcess) → Type 0
AllTagged argv env none = Unit {0}
AllTagged argv env (some found) = (out : Text) × (argv ≡ some out) × All (Tagged out env) found

-- Each process that the scan attributes to a simulator is Tagged: its pid is above 1, and what ps
-- printed beside it names the simulator.
pub sim_runtime_processes-Tagged :
    (argv : Option Text) (env : EnvForPids) → AllTagged argv env (sim_runtime_processes argv env)
unfolding sim_runtime_processes
sim_runtime_processes-Tagged none env = tt
sim_runtime_processes-Tagged (some out) env =
    let s = sight_each (lines out) in
    (
      out,
      refl,
      append_Tagged out env s.found (attribute_chunks env (chunks pid_chunk [] s.need_env))
          (sight_each-Tagged out env (lines out) (λ l m. m))
          (attribute_chunks-Tagged out env _ (λ c l k m. (c, k, m))),
    )
