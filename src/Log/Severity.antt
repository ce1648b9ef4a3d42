-- ===== src/Log/Severity.antt =====
-- tvnet/log.h: the severities, and a message with one of them.
use libtvnet.Base.{ℕ, List, Option, ℤ, pos}
use libtvnet.Tvutils.{Tvutils}
use libtvnet.Stdarg.Args.{Arg}
use libtvnet.Log.Client.{Info, Sent, vmessage}

-- `tvnl_severity_t`
pub data Severity : Type 0 where
  fatal error warning audit information debugging : Severity

unfoldable pub severity_number : Severity → ℤ
severity_number fatal = pos 0
severity_number error = pos 1
severity_number warning = pos 2
severity_number audit = pos 3
severity_number information = pos 4
severity_number debugging = pos 5

-- TVNL_FATAL and its like, which pass `__FILE__` and `__LINE__` to `tvnl_message`
unfoldable pub log_message :
    ⦃tv : Tvutils⦄ (ring_head : ℕ → Option (List ℕ))
    → Info
    → (timestamp : ℤ) (filename : List ℕ) (lineno : ℤ) → Severity
    → (fmt : List ℕ) → List Arg
    → Option Sent
unfolding severity_number
log_message ring_head info timestamp filename lineno severity fmt ap =
    vmessage ring_head info timestamp filename lineno (severity_number severity) fmt ap
