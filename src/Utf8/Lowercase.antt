-- ===== src/Utf8/Lowercase.antt =====
-- The lowercase mapping of Unicode scalars: `base_utf32_lowercase` of pico/lib/picobase.c. A run of
-- `case` labels is a row.
use platform_external_svox.Common.{ℕ, ◌+◌, List, [], ◌∷◌, ◌++◌, if◌then◌else◌}
use platform_external_svox.Utf8.Case.{
  Row, row, becomes, down, down_if_odd, up, up_if_even, up_if_odd, in_range, map_by,
}

-- The first `switch`: Latin Extended Additional, Greek Extended, letterlike symbols, and numbers.
unfoldable pub lowercase_extended : List Row
lowercase_extended =
    row 7680 7828 (up_if_even 1)
    ∷ row 7840 7928 (up_if_even 1)
    ∷ row 7944 7951 (down 8)
    ∷ row 7960 7965 (down 8)
    ∷ row 7976 7983 (down 8)
    ∷ row 7992 7999 (down 8)
    ∷ row 8008 8013 (down 8)
    ∷ row 8040 8047 (down 8)
    ∷ row 8072 8079 (down 8)
    ∷ row 8088 8095 (down 8)
    ∷ row 8104 8111 (down 8)
    ∷ row 8025 8031 (down_if_odd 8)
    ∷ row 8544 8559 (up 16)
    ∷ row 9398 9423 (up 26)
    ∷ row 8120 8120 (becomes 8112)
    ∷ row 8121 8121 (becomes 8113)
    ∷ row 8122 8122 (becomes 8048)
    ∷ row 8123 8123 (becomes 8049)
    ∷ row 8124 8124 (becomes 8115)
    ∷ row 8136 8136 (becomes 8050)
    ∷ row 8137 8137 (becomes 8051)
    ∷ row 8138 8138 (becomes 8052)
    ∷ row 8139 8139 (becomes 8053)
    ∷ row 8140 8140 (becomes 8131)
    ∷ row 8152 8152 (becomes 8144)
    ∷ row 8153 8153 (becomes 8145)
    ∷ row 8154 8154 (becomes 8054)
    ∷ row 8155 8155 (becomes 8055)
    ∷ row 8168 8168 (becomes 8160)
    ∷ row 8169 8169 (becomes 8161)
    ∷ row 8170 8170 (becomes 8058)
    ∷ row 8171 8171 (becomes 8059)
    ∷ row 8172 8172 (becomes 8165)
    ∷ row 8184 8184 (becomes 8056)
    ∷ row 8185 8185 (becomes 8057)
    ∷ row 8186 8186 (becomes 8060)
    ∷ row 8187 8187 (becomes 8061)
    ∷ row 8188 8188 (becomes 8179)
    ∷ row 8486 8486 (becomes 969)
    ∷ row 8490 8490 (becomes 107)
    ∷ row 8491 8491 (becomes 229)
    ∷ []

-- The second `switch`, its first half.
unfoldable pub lowercase_ranges : List Row
lowercase_ranges =
    row 65 90 (up 32)
    ∷ row 192 214 (up 32)
    ∷ row 216 222 (up 32)
    ∷ row 913 929 (up 32)
    ∷ row 931 939 (up 32)
    ∷ row 1040 1071 (up 32)
    ∷ row 256 303 (up_if_even 1)
    ∷ row 305 310 (up_if_even 1)
    ∷ row 330 374 (up_if_even 1)
    ∷ row 416 420 (up_if_even 1)
    ∷ row 478 494 (up_if_even 1)
    ∷ row 504 542 (up_if_even 1)
    ∷ row 546 562 (up_if_even 1)
    ∷ row 984 1006 (up_if_even 1)
    ∷ row 1120 1152 (up_if_even 1)
    ∷ row 1162 1214 (up_if_even 1)
    ∷ row 1232 1268 (up_if_even 1)
    ∷ row 1280 1294 (up_if_even 1)
    ∷ row 313 327 (up_if_odd 1)
    ∷ row 377 381 (up_if_odd 1)
    ∷ row 459 475 (up_if_odd 1)
    ∷ row 1217 1229 (up_if_odd 1)
    ∷ row 1024 1039 (up 80)
    ∷ row 1329 1366 (up 48)
    ∷ row 304 304 (becomes 105)
    ∷ row 376 376 (becomes 255)
    ∷ row 385 385 (becomes 595)
    ∷ row 386 386 (becomes 387)
    ∷ row 388 388 (becomes 389)
    ∷ row 390 390 (becomes 596)
    ∷ row 391 391 (becomes 392)
    ∷ row 393 393 (becomes 598)
    ∷ row 394 394 (becomes 599)
    ∷ row 395 395 (becomes 396)
    ∷ row 398 398 (becomes 477)
    ∷ row 399 399 (becomes 601)
    ∷ row 400 400 (becomes 603)
    ∷ row 401 401 (becomes 402)
    ∷ row 403 403 (becomes 608)
    ∷ row 404 404 (becomes 611)
    ∷ row 406 406 (becomes 617)
    ∷ row 407 407 (becomes 616)
    ∷ []

-- The second `switch`, its second half.
unfoldable pub lowercase_letters : List Row
lowercase_letters =
    row 408 408 (becomes 409)
    ∷ row 412 412 (becomes 623)
    ∷ row 413 413 (becomes 626)
    ∷ row 415 415 (becomes 629)
    ∷ row 422 422 (becomes 640)
    ∷ row 423 423 (becomes 424)
    ∷ row 425 425 (becomes 643)
    ∷ row 428 428 (becomes 429)
    ∷ row 430 430 (becomes 648)
    ∷ row 431 431 (becomes 432)
    ∷ row 433 433 (becomes 650)
    ∷ row 434 434 (becomes 651)
    ∷ row 435 435 (becomes 436)
    ∷ row 437 437 (becomes 438)
    ∷ row 439 439 (becomes 658)
    ∷ row 440 440 (becomes 441)
    ∷ row 444 444 (becomes 445)
    ∷ row 452 452 (becomes 454)
    ∷ row 453 453 (becomes 454)
    ∷ row 455 455 (becomes 457)
    ∷ row 456 456 (becomes 457)
    ∷ row 458 458 (becomes 460)
    ∷ row 497 497 (becomes 499)
    ∷ row 498 498 (becomes 499)
    ∷ row 500 500 (becomes 501)
    ∷ row 502 502 (becomes 405)
    ∷ row 503 503 (becomes 447)
    ∷ row 544 544 (becomes 414)
    ∷ row 902 902 (becomes 940)
    ∷ row 904 904 (becomes 941)
    ∷ row 905 905 (becomes 942)
    ∷ row 906 906 (becomes 943)
    ∷ row 908 908 (becomes 972)
    ∷ row 910 910 (becomes 973)
    ∷ row 911 911 (becomes 974)
    ∷ row 1012 1012 (becomes 952)
    ∷ row 1015 1015 (becomes 1016)
    ∷ row 1017 1017 (becomes 1010)
    ∷ row 1018 1018 (becomes 1019)
    ∷ row 1272 1272 (becomes 1273)
    ∷ []

unfoldable pub base_utf32_lowercase : ℕ → ℕ
base_utf32_lowercase utf32 =
    if in_range 65313 65338 utf32
    then utf32 + 32
    else if in_range 66560 66599 utf32
    then utf32 + 40
    else if in_range 7680 9423 utf32
    then map_by lowercase_extended utf32
    else map_by (lowercase_ranges ++ lowercase_letters) utf32
