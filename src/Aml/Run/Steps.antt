-- ===== src/Aml/Run/Steps.antt =====
-- parse_next and parse_termlist of lethe-aml/aml/helpers.c and parse_table of aml/defs.c: every term
-- uses up code, so that every list of terms ends.
use mathlib.Core.Path.{subst}
use uefi_bare_bones.Prelude.{
  ℕ, zero, suc, ◌+◌, ◌-◌, ◌%◌, ◌^◌, ◌≤◌, ◌<◌, ◌≡◌, sym, false, List, ◌==◌, if◌then◌else◌, length,
  choice, arith, ltb,
}
use uefi_bare_bones.Aml.Namespace.{Aml}
use uefi_bare_bones.Aml.Namespace.Depth.{HasParents}
use uefi_bare_bones.Aml.Interp.{
  Host, Interp, Outcome, done, exit, undefined, past_depth, M, ◌>>◌, pure, code_of,
}
use uefi_bare_bones.Aml.Interp.Progress.{
  Within, within_done, within_exit, within_undefined, within_past, Within-more, bind-Within, Bound,
  bind-Bound, pure-Bound, exit-Bound, if-Bound, put_code-Within, advance-Bound, next_byte-Bound,
  next_byte-Within,
}
use uefi_bare_bones.Aml.Fields.Depth.{def_field-Bound, def_index_field-Bound}
use uefi_bare_bones.Aml.Defs.{Run}
use uefi_bare_bones.Aml.Defs.Depth.{
  RunBound, def_if_else-Bound, def_method-Bound, def_name-Bound, def_op_region-Bound,
  def_scope-Bound, def_device-Bound, def_alias-Bound, def_mutex-Bound, def_create_word_field-Bound,
}
use uefi_bare_bones.Aml.Run.{
  next_switch, parse_next, from_start, term_loop, parse_termlist, parse_table,
}

next_switch-Bound :
    {ns n : ℕ} {run : Run} (host : Host) (op : ℕ)
    → RunBound host.depth n run
    → Bound host.depth ns n (next_switch run host ns op)
next_switch-Bound host op r = if-Bound (op == 0xA0) (def_if_else-Bound host r) (
    if-Bound (op == 0x08) (def_name-Bound host) (
      if-Bound (op == 0x14) (def_method-Bound host) (
        if-Bound (op == 0x5B80) (def_op_region-Bound host) (
          if-Bound (op == 0x5B81) (def_field-Bound host) (
            if-Bound (op == 0x5B86) def_index_field-Bound (
              if-Bound (op == 0x10) (def_scope-Bound host r) (
                if-Bound (op == 0x5B82) (def_device-Bound host r) (
                  if-Bound (op == 0x5B01) (def_mutex-Bound host) (
                    if-Bound (op == 0x06) def_alias-Bound (
                      if-Bound (op == 0x8B)
                        (bind-Bound (def_create_word_field-Bound host) (λ u. def_index_field-Bound))
                        (if-Bound (op == 0x5B83) def_index_field-Bound exit-Bound)))))))))))

-- A term has a byte of its own.
parse_next-Within :
    (run : Run) (host : Host) (ns k : ℕ) (s : Interp)
    → RunBound host.depth k run
    → length (code_of ns s) ≤ suc k
    → Within host.depth ns k (parse_next run host ns s)
unfolding parse_next
parse_next-Within run host ns k s r l =
    bind-Within
      (bind-Within (next_byte-Within ns k s l) (λ b s1 l1.
        (if-Bound (b == 0x5B) (bind-Bound next_byte-Bound (λ ext. pure-Bound (0x5B00 + ext)))
            (pure-Bound b)).bounds
          s1 l1))
      (λ op s2 l2. (next_switch-Bound host op r).bounds s2 l2)

from_start-RunBound :
    {d : ℕ} (loop : ℕ → List ℕ → M (Unit {0})) (k : ℕ)
    → ((ns : ℕ) (end : List ℕ) → Bound d ns k (loop ns end))
    → RunBound d k (from_start loop)
from_start-RunBound loop k b = record {
  run_bound = λ ns start end m l. record {
    bounds = λ s h.
        bind-Within
          (bind-Within {f = λ u. loop ns end} (put_code-Within tt ns k start s l)
            (λ u s1 l1. (b ns end).bounds s1 l1))
          (λ u s2 l2. put_code-Within tt ns m (code_of ns s) s2 h);
  };
}

term_loop-Bound :
    (host : Host) (fuel n ns : ℕ) (end : List ℕ)
    → n < fuel
    → Bound host.depth ns n (term_loop fuel host ns end)
unfolding term_loop
term_loop-Bound host zero n ns end h = absurd (omega arith)
term_loop-Bound host (suc fuel) zero ns end h = record {
  bounds = λ s l.
      let none_left : ltb (length end) (length (code_of ns s)) ≡ false = ground arith in
      subst
        (λ b. Within host.depth ns 0 (
          (if b
              then (parse_next (from_start (term_loop fuel host)) host ns
                  >> term_loop fuel host ns end)
              else pure tt)
            s))
        (sym none_left) (within_done tt s l);
}
term_loop-Bound host (suc fuel) (suc k) ns end h = record {
  bounds = λ s l.
      choice (λ (m : M (Unit {0})). Within host.depth ns (suc k) (m s))
        (ltb (length end) (length (code_of ns s)))
        (bind-Within
          (parse_next-Within (from_start (term_loop fuel host)) host ns k s
            (from_start-RunBound (term_loop fuel host) k
              (λ q e. term_loop-Bound host fuel k q e (omega arith)))
            l)
          (λ u s1 l1.
            Within-more (omega arith)
              ((term_loop-Bound host fuel k ns end (omega arith)).bounds s1 l1)))
        (within_done tt s l);
}

parse_termlist-Bound :
    (host : Host) (ns m : ℕ) (start end : List ℕ)
    → Bound host.depth ns m (parse_termlist host ns start end)
unfolding parse_termlist
parse_termlist-Bound host ns m start end =
    (from_start-RunBound (term_loop (suc (length start)) host) (length start) (λ q e.
        term_loop-Bound host (suc (length start)) (length start) q e (omega arith))).run_bound
      ns start end m (omega arith)

-- How a run ends with no fuel missing: it is done, it is over, there is an access outside of a
-- block, or a walk up the parents from some namespace takes more than `n` steps, which it does only
-- where that namespace and the next ones on the way up, `n` of them, all have a parent.
pub data Ends {A : Type 0} (n : ℕ) : Outcome (A × Interp) → Type 0 where
  ends_done : (a : A) (s : Interp) → Ends n (done (a, s))
  ends_exit : Ends n exit
  ends_undefined : Ends n undefined
  ends_past : (aml : Aml) (ns : ℕ) → HasParents n aml ns → Ends n (past_depth n aml ns)

Within-Ends : {A : Type 0} {d ns n : ℕ} {o : Outcome (A × Interp)} → Within d ns n o → Ends d o
Within-Ends (within_done a s l) = ends_done a s
Within-Ends within_exit = ends_exit
Within-Ends within_undefined = ends_undefined
Within-Ends (within_past aml q h) = ends_past aml q h

-- Any table is read through with no fuel missing, whatever the length in its header is: it is done,
-- the run is over, or there is an access outside of a block, unless at some point a namespace has
-- at least as many parents above it as the depth that is given.
pub parse_table-Ends :
    (host : Host) (s : Interp) (table_data : List ℕ) (table_len : ℕ)
    → Ends host.depth (parse_table host table_data table_len s)
unfolding parse_table
parse_table-Ends host s table_data table_len =
    let ns = s.aml.root in
    let n = length table_data in
    Within-Ends (
      bind-Within {ns = ns} {n = n} (put_code-Within tt ns n table_data s (omega arith)) (λ u s1 l1.
        (advance-Bound ((table_len + 2 ^ 32 - 36) % 2 ^ 32) table_data (omega arith)
            (λ end h. parse_termlist-Bound host ns n table_data end)).bounds
          s1 l1))
