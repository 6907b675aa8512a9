-- ===== src/Examples/Userland.antt =====
-- The processes of a deleted simulator, from the text of ps to the kills of `reap`.
use simpool.Common.{
  ◌≡◌, ◌≢◌, refl, true, false, List, [], ◌∷◌, ◌++◌, none, some, all, any, All, ◌==◌, if◌then◌else◌,
}
use simpool.Common.Sorting.{sort_by, insert_by}
use simpool.Text.{Text, codes, text_eq, has_prefix, contains, is_space}
use simpool.Procs.{Device}
use simpool.Names.Decimal.{is_digit, digits_value}
use simpool.Names.Parsing.{number_of}
use simpool.Slim.{text_lt}
use simpool.Poison.Recovery.{Machine, Act, killed, kill_each}
use simpool.Poison.Kills.{Adds}
use simpool.SimRuntime.{
  SimRuntimeProcess, EnvForPids, lines_from, trim_start, trim_space, cut_blank, pid_of,
  split_pid_line, behind, behind_first, word_of, device_tag_udid, base_from, is_launchd_sim,
  is_udid_char, udid_at, launchd_sim_udid, sight_each, attribute_each, ends_line, env_one_by_one,
  env_for_chunk, chunks, attribute_chunks, sim_runtime_processes,
}
use simpool.Runtimes.{
  add_pid, grouped_by_udid, find_orphaned_runtimes, kill_runtimes, reap_orphan_runtimes,
}
use simpool.Runtimes.Deleted.{KillsStray, reap_orphan_runtimes-Kills}
use simpool.Runtimes.Swept.{Kills, reap_orphan_runtimes_sweeps}
use simpool.Runtimes.Deleted.{Gone}
use simpool.Examples.Scene.{device_0, kernel, quiet, machine_of}

abbrev gone_udid : Text
gone_udid = codes "0A1B2C3D-0000-0000-0000-00000000FFFF"

abbrev end_of_line : Text
end_of_line = 10 ∷ []

-- The launchd_sim of a deleted simulator, and SpringBoards of two, one deleted and one listed.
abbrev argv : Text
argv =
    codes "  1 /sbin/launchd"
    ++ end_of_line
    ++ codes " 40 launchd_sim /Users/u/Devices/"
    ++ gone_udid
    ++ codes "/data/var/run"
    ++ end_of_line
    ++ codes " 50 /R.simruntime/Contents/Resources/RuntimeRoot/SpringBoard"
    ++ end_of_line
    ++ codes " 41 /R.simruntime/Contents/Resources/RuntimeRoot/SpringBoard"

abbrev line_for : Text → Text
line_for udid =
    (codes "/R.simruntime/Contents/Resources/RuntimeRoot/SpringBoard A=1 "
      ++ codes "XPC_SIMULATOR_LAUNCHD_NAME=com.apple.CoreSimulator.SimDevice."
      ++ udid
      ++ codes " B=2")

-- One query for both processes fails.
abbrev env : EnvForPids
env (p ∷ []) =
    if p == 50
    then some (codes "50 " ++ line_for (codes "U"))
    else some (codes "41 " ++ line_for gone_udid)
env _ = none

unfoldable run_userland : Machine → List Act
unfolding sort_by insert_by has_prefix is_space is_digit digits_value number_of text_lt kill_each
    text_eq contains all any lines_from trim_start trim_space cut_blank pid_of split_pid_line behind
    behind_first word_of device_tag_udid base_from is_launchd_sim is_udid_char udid_at
    launchd_sim_udid sight_each attribute_each ends_line env_one_by_one env_for_chunk chunks
    attribute_chunks sim_runtime_processes add_pid grouped_by_udid find_orphaned_runtimes
    kill_runtimes reap_orphan_runtimes
run_userland w =
    (reap_orphan_runtimes kernel (sim_runtime_processes (some argv) env) true false w).acts

-- launchd_sim is signalled first.
userland_goes : run_userland (machine_of quiet) ≡ killed 41 ∷ killed 40 ∷ []
unfolding run_userland
userland_goes = refl

-- A listing of devices that fails says nothing.
userland_stays : run_userland (machine_of (record quiet { devices = none })) ≡ []
unfolding run_userland
userland_stays = refl

reap_orphan_runtimes-Kills_example :
    Adds
      (λ a.
        (true ≡ true)
        × (false ≡ false)
        × ((ds : List Device) × (quiet.devices ≡ some ds)
            × (ds ≢ [])
            × ((out : Text) × (some argv ≡ some out) × KillsStray out env ds a)))
      (machine_of quiet)
      (reap_orphan_runtimes kernel
        (sim_runtime_processes (some argv) env)
        true
        false
        (machine_of quiet))
reap_orphan_runtimes-Kills_example =
    reap_orphan_runtimes-Kills kernel (some argv) env true false (machine_of quiet)

abbrev left_over : List SimRuntimeProcess
left_over = record { pid = 41; udid = gone_udid } ∷ []

abbrev listed : List Device
listed = device_0 ∷ []

reap_orphan_runtimes_sweeps_example :
    All
      (λ p.
        Gone listed p.udid
        → Kills p.pid
            (reap_orphan_runtimes kernel (some left_over) true false (machine_of quiet)).acts)
      left_over
reap_orphan_runtimes_sweeps_example =
    reap_orphan_runtimes_sweeps kernel left_over listed (machine_of quiet) refl (λ n. cc)
