-- ===== src/DateFormat/Tests.antt =====
-- Runs of checkDateFormat at concrete inputs.
use irods_client_library_cpp.Base.{◌+◌, ◌*◌, ◌≡◌, refl, Bytes, codes, Result, err, ok, arith}
use irods_client_library_cpp.Base.Int.{pos}
use irods_client_library_cpp.DateFormat.{
  Error, date_format_err, unix_time_err, is_digit, is_integer, digits, printed, number_of,
  skip_space, signed, atoi, times, unit_of, run, offset_loop, backwards, digits_at, is_full,
  full_date, offset_text, date_or_offset, check_date_format,
}
use irods_client_library_cpp.DateFormat.Offset.{seconds, check_date_format_lem}

-- No local time is turned into a Unix time.
abbrev no_time : Bytes → Result Error Bytes
no_time s = err unix_time_err

check_date_format_lem_example :
    (check_date_format no_time (codes "20:40") ≡ ok (printed (pos (seconds 2 0 4 0))))
    × (check_date_format no_time (codes "01:20:40")
        ≡ ok (printed (pos (3600 * (10 * 0 + 1) + seconds 2 0 4 0))))
    × (check_date_format no_time (codes "10.01:20:40")
        ≡ ok (printed (pos (86_400 * (10 * 1 + 0) + 3600 * (10 * 0 + 1) + seconds 2 0 4 0 + 1))))
check_date_format_lem_example =
    check_date_format_lem no_time 1 0 0 1 2 0 4 0 (omega arith) (omega arith) (omega arith)
      (omega arith) (omega arith) (omega arith) (omega arith) (omega arith)

check_date_format_runs :
    (check_date_format no_time (codes "-3h") ≡ ok (codes "-10800"))
    × (check_date_format no_time (codes "10.00:00:00") ≡ ok (codes "864001"))
    × (check_date_format no_time (codes "2007-07-29.12") ≡ err unix_time_err)
    × (check_date_format no_time (codes "1.2") ≡ err date_format_err)
unfolding check_date_format is_integer is_digit unit_of printed digits times atoi skip_space signed
    number_of date_or_offset digits_at full_date is_full offset_text offset_loop run backwards
check_date_format_runs = (refl, refl, refl, refl)
