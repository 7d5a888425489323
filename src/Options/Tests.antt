-- ===== src/Options/Tests.antt =====
-- The options at concrete arguments.
use ecwid_console_downloader.Base.{◌≡◌, refl, codes, arith, ◌++◌, ◌*◌}
use ecwid_console_downloader.Options.{
  long, Arguments, ProgramOptions, ok, uncaught, is_digit, span_digits, is_suffix, is_limit,
  number_from, stoul, scaled, check_limit, speed_limit, invalid_limit, concurrency_of,
  parse_program_options,
}
use ecwid_console_downloader.Tasks.{is_empty}
use ecwid_console_downloader.Options.Limit.{
  decimal, suffix_text, factor, k, M, speed_limit-scales, speed_limit-decimal_read,
}
use ecwid_console_downloader.Options.Accept.{IsAccepted, parse_program_options-IsAccepted}

-- One more than 2^54 kilobytes is one kilobyte.
speed_limit-scales_example : speed_limit (decimal 18014398509481985 ++ suffix_text k) ≡ ok 1024
speed_limit-scales_example = speed_limit-scales 18014398509481985 k (omega arith)

wrapped : speed_limit (codes "18014398509481985k") ≡ ok 1024
unfolding speed_limit is_digit span_digits is_suffix is_limit number_from stoul scaled check_limit
    is_empty
wrapped = refl

vanished : speed_limit (codes "18014398509481984k") ≡ invalid_limit
unfolding speed_limit is_digit span_digits is_suffix is_limit number_from stoul scaled check_limit
    is_empty
vanished = refl

too_long : speed_limit (codes "18446744073709551616") ≡ uncaught
unfolding speed_limit is_digit span_digits is_suffix is_limit number_from stoul scaled check_limit
    is_empty
too_long = refl

trailing : speed_limit (codes "10kb") ≡ invalid_limit
unfolding speed_limit is_digit span_digits is_suffix is_limit number_from stoul scaled check_limit
    is_empty
trailing = refl

speed_limit-decimal_read_example : speed_limit (decimal 20 ++ suffix_text M) ≡ ok (20 * factor M)
speed_limit-decimal_read_example = speed_limit-decimal_read 20 M (omega arith) (omega arith)

abbrev arguments : Arguments
arguments = record {
  concurrency = long 4;
  speed_limit = codes "500k";
  output_path = codes "/tmp";
  task_fname = codes "tasks";
}

abbrev options : ProgramOptions
options = record {
  concurrency = 4;
  limit = 512000;
  path = codes "/tmp";
  task_fname = codes "tasks";
}

parsed : parse_program_options arguments ≡ ok options
unfolding parse_program_options concurrency_of speed_limit is_digit span_digits is_suffix is_limit
    number_from stoul scaled check_limit is_empty
parsed = refl

parse_program_options-IsAccepted_example : IsAccepted arguments options
parse_program_options-IsAccepted_example = parse_program_options-IsAccepted arguments options parsed
