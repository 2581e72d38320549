-- ===== src/Utf8/Uppercase.antt =====
-- The uppercase mapping of Unicode scalars: `base_utf32_uppercase` of pico/lib/picobase.c. A run of
-- `case` labels is a row.
use platform_external_svox.Common.{ℕ, ◌-◌, List, [], ◌∷◌, ◌++◌, if◌then◌else◌}
use platform_external_svox.Utf8.Case.{
  Row, row, becomes, down, down_but_247, down_if_even, down_if_odd, up, up_if_odd, in_range, map_by,
}

-- The first `switch`: Latin Extended Additional, Greek Extended, letterlike symbols, and numbers.
unfoldable pub uppercase_extended : List Row
uppercase_extended =
    row 7681 7829 (down_if_odd 1)
    ∷ row 7841 7929 (down_if_odd 1)
    ∷ row 7936 7943 (up 8)
    ∷ row 7952 7957 (up 8)
    ∷ row 7968 7975 (up 8)
    ∷ row 7984 7991 (up 8)
    ∷ row 8000 8005 (up 8)
    ∷ row 8032 8039 (up 8)
    ∷ row 8064 8071 (up 8)
    ∷ row 8080 8087 (up 8)
    ∷ row 8096 8103 (up 8)
    ∷ row 8017 8023 (up_if_odd 8)
    ∷ row 8560 8575 (down 16)
    ∷ row 9424 9449 (down 26)
    ∷ row 7835 7835 (becomes 7776)
    ∷ row 8048 8048 (becomes 8122)
    ∷ row 8049 8049 (becomes 8123)
    ∷ row 8050 8050 (becomes 8136)
    ∷ row 8051 8051 (becomes 8137)
    ∷ row 8052 8052 (becomes 8138)
    ∷ row 8053 8053 (becomes 8139)
    ∷ row 8054 8054 (becomes 8154)
    ∷ row 8055 8055 (becomes 8155)
    ∷ row 8056 8056 (becomes 8184)
    ∷ row 8057 8057 (becomes 8185)
    ∷ row 8058 8058 (becomes 8170)
    ∷ row 8059 8059 (becomes 8171)
    ∷ row 8060 8060 (becomes 8186)
    ∷ row 8061 8061 (becomes 8187)
    ∷ row 8112 8112 (becomes 8120)
    ∷ row 8113 8113 (becomes 8121)
    ∷ row 8115 8115 (becomes 8124)
    ∷ row 8126 8126 (becomes 921)
    ∷ row 8131 8131 (becomes 8140)
    ∷ row 8144 8144 (becomes 8152)
    ∷ row 8145 8145 (becomes 8153)
    ∷ row 8160 8160 (becomes 8168)
    ∷ row 8161 8161 (becomes 8169)
    ∷ row 8165 8165 (becomes 8172)
    ∷ row 8179 8179 (becomes 8188)
    ∷ []

-- The second `switch`, its first half.
unfoldable pub uppercase_ranges : List Row
uppercase_ranges =
    row 97 122 (down_but_247 32)
    ∷ row 224 254 (down_but_247 32)
    ∷ row 945 961 (down_but_247 32)
    ∷ row 963 971 (down_but_247 32)
    ∷ row 1072 1103 (down_but_247 32)
    ∷ row 257 304 (down_if_odd 1)
    ∷ row 306 311 (down_if_odd 1)
    ∷ row 331 375 (down_if_odd 1)
    ∷ row 417 421 (down_if_odd 1)
    ∷ row 481 495 (down_if_odd 1)
    ∷ row 507 511 (down_if_odd 1)
    ∷ row 513 544 (down_if_odd 1)
    ∷ row 546 563 (down_if_odd 1)
    ∷ row 985 1007 (down_if_odd 1)
    ∷ row 1121 1153 (down_if_odd 1)
    ∷ row 1163 1215 (down_if_odd 1)
    ∷ row 1233 1269 (down_if_odd 1)
    ∷ row 1281 1295 (down_if_odd 1)
    ∷ row 314 328 (down_if_even 1)
    ∷ row 378 382 (down_if_even 1)
    ∷ row 464 476 (down_if_even 1)
    ∷ row 1218 1230 (down_if_even 1)
    ∷ row 1104 1119 (down 80)
    ∷ row 1377 1414 (down 48)
    ∷ row 181 181 (becomes 924)
    ∷ row 255 255 (becomes 376)
    ∷ row 305 305 (becomes 73)
    ∷ row 383 383 (becomes 83)
    ∷ row 387 387 (becomes 386)
    ∷ row 389 389 (becomes 388)
    ∷ row 392 392 (becomes 391)
    ∷ row 396 396 (becomes 395)
    ∷ row 402 402 (becomes 401)
    ∷ row 405 405 (becomes 502)
    ∷ row 409 409 (becomes 408)
    ∷ row 414 414 (becomes 544)
    ∷ row 424 424 (becomes 423)
    ∷ row 429 429 (becomes 428)
    ∷ row 432 432 (becomes 431)
    ∷ row 436 436 (becomes 435)
    ∷ row 438 438 (becomes 437)
    ∷ row 441 441 (becomes 440)
    ∷ row 445 445 (becomes 444)
    ∷ row 447 447 (becomes 503)
    ∷ row 453 453 (becomes 452)
    ∷ row 454 454 (becomes 452)
    ∷ row 456 456 (becomes 455)
    ∷ row 457 457 (becomes 455)
    ∷ row 459 459 (becomes 458)
    ∷ []

-- The second `switch`, its second half.
unfoldable pub uppercase_letters : List Row
uppercase_letters =
    row 460 460 (becomes 458)
    ∷ row 462 462 (becomes 461)
    ∷ row 477 477 (becomes 398)
    ∷ row 479 479 (becomes 478)
    ∷ row 498 498 (becomes 497)
    ∷ row 499 499 (becomes 497)
    ∷ row 501 501 (becomes 500)
    ∷ row 505 505 (becomes 504)
    ∷ row 595 595 (becomes 385)
    ∷ row 596 596 (becomes 390)
    ∷ row 598 598 (becomes 393)
    ∷ row 599 599 (becomes 394)
    ∷ row 601 601 (becomes 399)
    ∷ row 603 603 (becomes 400)
    ∷ row 608 608 (becomes 403)
    ∷ row 611 611 (becomes 404)
    ∷ row 616 616 (becomes 407)
    ∷ row 617 617 (becomes 406)
    ∷ row 623 623 (becomes 412)
    ∷ row 626 626 (becomes 413)
    ∷ row 629 629 (becomes 415)
    ∷ row 640 640 (becomes 422)
    ∷ row 643 643 (becomes 425)
    ∷ row 648 648 (becomes 430)
    ∷ row 650 650 (becomes 433)
    ∷ row 651 651 (becomes 434)
    ∷ row 658 658 (becomes 439)
    ∷ row 837 837 (becomes 921)
    ∷ row 940 940 (becomes 902)
    ∷ row 941 941 (becomes 904)
    ∷ row 942 942 (becomes 905)
    ∷ row 943 943 (becomes 906)
    ∷ row 962 962 (becomes 931)
    ∷ row 972 972 (becomes 908)
    ∷ row 973 973 (becomes 910)
    ∷ row 974 974 (becomes 911)
    ∷ row 976 976 (becomes 914)
    ∷ row 977 977 (becomes 920)
    ∷ row 981 981 (becomes 934)
    ∷ row 982 982 (becomes 928)
    ∷ row 1008 1008 (becomes 922)
    ∷ row 1009 1009 (becomes 929)
    ∷ row 1010 1010 (becomes 1017)
    ∷ row 1013 1013 (becomes 917)
    ∷ row 1016 1016 (becomes 1015)
    ∷ row 1019 1019 (becomes 1018)
    ∷ row 1273 1273 (becomes 1272)
    ∷ []

unfoldable pub base_utf32_uppercase : ℕ → ℕ
base_utf32_uppercase utf32 =
    if in_range 65345 65370 utf32
    then utf32 - 32
    else if in_range 66600 66639 utf32
    then utf32 - 40
    else if in_range 7681 9449 utf32
    then map_by uppercase_extended utf32
    else map_by (uppercase_ranges ++ uppercase_letters) utf32
