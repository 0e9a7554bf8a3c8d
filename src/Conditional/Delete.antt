-- ===== src/Conditional/Delete.antt =====
-- services/ConditionalDeleteProvider.cpp: a command provider whose commands remove one conditional,
-- or all of them, from the report.
use umaa_cpp.Base.{
  ℕ, Bool, true, false, not, Option, none, some, List, [], ◌∷◌, if◌then◌else◌, is_some,
}
use umaa_cpp.Base.Sets.{Equality}
use umaa_cpp.Transport.{is_success}
use umaa_cpp.Provider.{StateResult, advance, err}
use umaa_cpp.Conditional.{
  ConditionalType, Env, Service, get_conditionals, get_conditional_by_id, remove_specialization,
  send_report,
}

-- isCommandValid; a command without an id means all conditionals.
abbrev pub is_command_valid : {P S : Type 0} → Option ℕ → Service P S → Bool
is_command_valid none r = true
is_command_valid (some id) r = is_some (get_conditional_by_id id r)

module _ {P S : Type 0} (q : Equality (ConditionalType P)) (env : Env P S) where
  -- The `for` loop over the conditionals, and whether it comes to its end.
  unfoldable pub remove_each : List (ConditionalType P) → Service P S → Bool × Service P S
  remove_each [] r = (true, r)
  remove_each (c ∷ cs) r =
      let (status, r') = remove_specialization q env c.conditional_id r in
      let rest = remove_each cs r' in if is_success status then rest else (false, r')

  abbrev pub report_removed : Bool × Service P S → StateResult × Service P S
  report_removed (done, r) =
      let (sent, r') = send_report env r in
      if not done then (err, r) else (if is_success sent then (advance, r') else (err, r'))

  unfoldable pub on_commanded : Option ℕ → Service P S → StateResult × Service P S
  on_commanded (some id) r =
      let (status, r') = remove_specialization q env id r in report_removed (is_success status, r')
  on_commanded none r = report_removed (remove_each (get_conditionals r) r)
