-- ===== src/Manifest/Messages.antt =====
-- The texts that internal/manifest/preflight.go and watchdog.go report.
use Prim.Native.String.{◌++◌}
use mantlerd.Base.{String}

unfoldable pub fell_back : String → String → String
fell_back source e = "Preflight memory check fell back to " ++ source ++ ": " ++ e

-- The issue of a plan that does not fit, of the four numbers' decimals.
unfoldable pub too_high : String → String → String → String → String
too_high required headroom projected total =
    "projected steady-state memory use is too high: need ~" ++ required ++ "MB with ~" ++ headroom
    ++ "MB headroom, projected used ~" ++ projected ++ "MB of " ++ total ++ "MB total"

unfoldable pub ejecting : String → String
ejecting id = "Preflight ejecting no-longer-needed model " ++ id ++ "..."

unfoldable pub not_ejected : String → String → String
not_ejected id e = "failed to eject model " ++ id ++ " before load: " ++ e

unfoldable pub loading : String → String → String
loading id runtime = "Preflight loading model " ++ id ++ " (" ++ runtime ++ ")..."

unfoldable pub not_loaded : String → String → String
not_loaded id e = "failed to load model " ++ id ++ ": " ++ e

unfoldable pub no_endpoint : String → String
no_endpoint id = "model " ++ id ++ " is missing endpoint URL"

unfoldable pub probing : String → String
probing id = "Preflight probing endpoint for " ++ id ++ "..."

unfoldable pub not_answering : String → String → String
not_answering id e = "endpoint check failed for " ++ id ++ ": " ++ e

unfoldable pub appears_oom : String → String
appears_oom id = "Watchdog: " ++ id ++ " appears OOM. Restarting runtime and reloading model."

unfoldable pub recovering : String → String
recovering id = "Watchdog: recovering model " ++ id ++ " after health-check failure."

unfoldable pub health_failure : String → String → String
health_failure id e = "Watchdog health failure for " ++ id ++ ": " ++ e

unfoldable pub recovery_failed : String → String → String
recovery_failed id e = "Watchdog recovery failed for " ++ id ++ ": " ++ e

unfoldable pub failed_repeatedly : String → String
failed_repeatedly id = "Watchdog critical: model " ++ id ++ " failed health checks repeatedly."

unfoldable pub healthy_again : String → String
healthy_again id = "Watchdog: model " ++ id ++ " is healthy again."
