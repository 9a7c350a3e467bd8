-- ===== src/Programs/Switch/Second.antt =====
-- bench/shootout-src/switch.c, cases 700 to 1399: the number that each case takes `^=` with.
use zwasm.Base.{ℕ, List, [], ◌∷◌}

abbrev pub cases_700 : List ℕ
cases_700 =
    294 ∷ 3203 ∷ 696 ∷ 3548 ∷ 181 ∷ 913 ∷ 3751 ∷ 1249 ∷ 2748 ∷ 2293 ∷ 3525 ∷ 3802 ∷ 3379 ∷ 3149
    ∷ 3394 ∷ 3834 ∷ 2641 ∷ 2606 ∷ 686 ∷ 281 ∷ 1539 ∷ 276 ∷ 989 ∷ 275 ∷ 3404 ∷ 782 ∷ 1750 ∷ 55 ∷ 980
    ∷ 2938 ∷ 2882 ∷ 1941 ∷ 1864 ∷ 2301 ∷ 3940 ∷ 2303 ∷ 1070 ∷ 3462 ∷ 2 ∷ 3138 ∷ 2579 ∷ 3847 ∷ 2248
    ∷ 3764 ∷ 2292 ∷ 2304 ∷ 116 ∷ 193 ∷ 1041 ∷ 1754 ∷ []

abbrev pub cases_750 : List ℕ
cases_750 =
    72 ∷ 3333 ∷ 1963 ∷ 1774 ∷ 3411 ∷ 2148 ∷ 3738 ∷ 3980 ∷ 2141 ∷ 3199 ∷ 2448 ∷ 2046 ∷ 1168 ∷ 3053
    ∷ 1245 ∷ 3514 ∷ 1977 ∷ 492 ∷ 2388 ∷ 585 ∷ 1503 ∷ 3699 ∷ 368 ∷ 3658 ∷ 1562 ∷ 108 ∷ 3353 ∷ 1024
    ∷ 1260 ∷ 2495 ∷ 1871 ∷ 3044 ∷ 2940 ∷ 1729 ∷ 1824 ∷ 2510 ∷ 1755 ∷ 3926 ∷ 2876 ∷ 1449 ∷ 2526
    ∷ 2923 ∷ 559 ∷ 622 ∷ 198 ∷ 3292 ∷ 320 ∷ 2571 ∷ 1663 ∷ 2556 ∷ []

abbrev pub cases_800 : List ℕ
cases_800 =
    1753 ∷ 2906 ∷ 2900 ∷ 544 ∷ 638 ∷ 2004 ∷ 2413 ∷ 13 ∷ 2345 ∷ 280 ∷ 376 ∷ 746 ∷ 485 ∷ 393 ∷ 3317
    ∷ 975 ∷ 437 ∷ 4044 ∷ 270 ∷ 4067 ∷ 3457 ∷ 2648 ∷ 1865 ∷ 3450 ∷ 2984 ∷ 4064 ∷ 1134 ∷ 2947 ∷ 344
    ∷ 3720 ∷ 3713 ∷ 1039 ∷ 3357 ∷ 870 ∷ 2265 ∷ 2854 ∷ 2574 ∷ 3045 ∷ 1579 ∷ 530 ∷ 3430 ∷ 1430 ∷ 3718
    ∷ 2367 ∷ 602 ∷ 919 ∷ 575 ∷ 2281 ∷ 835 ∷ 3906 ∷ []

abbrev pub cases_850 : List ℕ
cases_850 =
    773 ∷ 3278 ∷ 3499 ∷ 1196 ∷ 3204 ∷ 1773 ∷ 1390 ∷ 2572 ∷ 971 ∷ 2202 ∷ 4080 ∷ 2768 ∷ 2928 ∷ 3809
    ∷ 3681 ∷ 3103 ∷ 3976 ∷ 564 ∷ 3520 ∷ 3748 ∷ 1658 ∷ 2827 ∷ 3879 ∷ 3598 ∷ 2338 ∷ 1275 ∷ 3476 ∷ 1550
    ∷ 24 ∷ 1547 ∷ 1040 ∷ 2225 ∷ 1220 ∷ 521 ∷ 1604 ∷ 1459 ∷ 1360 ∷ 264 ∷ 4069 ∷ 2068 ∷ 3316 ∷ 1958
    ∷ 1870 ∷ 2540 ∷ 1300 ∷ 1959 ∷ 261 ∷ 387 ∷ 941 ∷ 2480 ∷ []

abbrev pub cases_900 : List ℕ
cases_900 =
    3657 ∷ 2193 ∷ 80 ∷ 227 ∷ 2741 ∷ 1814 ∷ 3479 ∷ 486 ∷ 3721 ∷ 1781 ∷ 2664 ∷ 2360 ∷ 767 ∷ 1625
    ∷ 3512 ∷ 1944 ∷ 436 ∷ 3153 ∷ 3968 ∷ 3990 ∷ 2097 ∷ 2869 ∷ 3446 ∷ 1365 ∷ 3719 ∷ 1585 ∷ 845 ∷ 994
    ∷ 306 ∷ 2653 ∷ 2599 ∷ 548 ∷ 2554 ∷ 640 ∷ 3179 ∷ 627 ∷ 2362 ∷ 2243 ∷ 720 ∷ 1408 ∷ 4035 ∷ 960
    ∷ 1227 ∷ 1948 ∷ 279 ∷ 3545 ∷ 1752 ∷ 2784 ∷ 2014 ∷ 2535 ∷ []

abbrev pub cases_950 : List ℕ
cases_950 =
    865 ∷ 2879 ∷ 3593 ∷ 1222 ∷ 3009 ∷ 3155 ∷ 3216 ∷ 1929 ∷ 1018 ∷ 333 ∷ 1063 ∷ 1451 ∷ 1923 ∷ 1521
    ∷ 978 ∷ 3983 ∷ 3513 ∷ 645 ∷ 3937 ∷ 2499 ∷ 2934 ∷ 3190 ∷ 1747 ∷ 2801 ∷ 3741 ∷ 1318 ∷ 4052 ∷ 2995
    ∷ 557 ∷ 3859 ∷ 1928 ∷ 879 ∷ 3389 ∷ 3224 ∷ 546 ∷ 2503 ∷ 1107 ∷ 2506 ∷ 770 ∷ 3401 ∷ 577 ∷ 220
    ∷ 3533 ∷ 2339 ∷ 2769 ∷ 499 ∷ 187 ∷ 1088 ∷ 1927 ∷ 3365 ∷ []

abbrev pub cases_1000 : List ℕ
cases_1000 =
    421 ∷ 3147 ∷ 1421 ∷ 2738 ∷ 3217 ∷ 1350 ∷ 1893 ∷ 2010 ∷ 3170 ∷ 63 ∷ 2593 ∷ 2263 ∷ 2005 ∷ 1497
    ∷ 1960 ∷ 2232 ∷ 657 ∷ 817 ∷ 2766 ∷ 597 ∷ 731 ∷ 878 ∷ 1232 ∷ 3307 ∷ 3902 ∷ 734 ∷ 2936 ∷ 491
    ∷ 1358 ∷ 2674 ∷ 1427 ∷ 137 ∷ 2759 ∷ 2181 ∷ 4074 ∷ 927 ∷ 2926 ∷ 1155 ∷ 3707 ∷ 1575 ∷ 3313 ∷ 3409
    ∷ 1188 ∷ 3736 ∷ 439 ∷ 1515 ∷ 501 ∷ 652 ∷ 2592 ∷ 2082 ∷ []

abbrev pub cases_1050 : List ℕ
cases_1050 =
    1447 ∷ 798 ∷ 2886 ∷ 2868 ∷ 293 ∷ 3115 ∷ 1565 ∷ 2320 ∷ 795 ∷ 1487 ∷ 1445 ∷ 1848 ∷ 574 ∷ 2190
    ∷ 1543 ∷ 166 ∷ 3812 ∷ 2471 ∷ 1115 ∷ 1239 ∷ 3891 ∷ 11 ∷ 3355 ∷ 3068 ∷ 1791 ∷ 624 ∷ 3932 ∷ 3664
    ∷ 110 ∷ 1589 ∷ 2258 ∷ 2972 ∷ 2818 ∷ 2287 ∷ 1212 ∷ 525 ∷ 1183 ∷ 2418 ∷ 1114 ∷ 3971 ∷ 1106 ∷ 1273
    ∷ 1283 ∷ 318 ∷ 4063 ∷ 2559 ∷ 3165 ∷ 2091 ∷ 3291 ∷ 4030 ∷ []

abbrev pub cases_1100 : List ℕ
cases_1100 =
    1993 ∷ 3772 ∷ 1607 ∷ 3261 ∷ 567 ∷ 517 ∷ 1522 ∷ 3917 ∷ 3024 ∷ 1290 ∷ 3622 ∷ 3778 ∷ 3050 ∷ 1763
    ∷ 3014 ∷ 3677 ∷ 1259 ∷ 3419 ∷ 2111 ∷ 1654 ∷ 1393 ∷ 2371 ∷ 3413 ∷ 1108 ∷ 2515 ∷ 3627 ∷ 3124
    ∷ 1037 ∷ 2789 ∷ 3031 ∷ 3189 ∷ 348 ∷ 2658 ∷ 882 ∷ 708 ∷ 922 ∷ 1555 ∷ 255 ∷ 2866 ∷ 3540 ∷ 3018
    ∷ 2979 ∷ 2823 ∷ 1071 ∷ 2317 ∷ 2783 ∷ 3984 ∷ 1157 ∷ 1653 ∷ 620 ∷ []

abbrev pub cases_1150 : List ℕ
cases_1150 =
    397 ∷ 821 ∷ 2686 ∷ 1384 ∷ 2951 ∷ 2705 ∷ 3881 ∷ 999 ∷ 1248 ∷ 3289 ∷ 3402 ∷ 2600 ∷ 1669 ∷ 3846
    ∷ 875 ∷ 3951 ∷ 3849 ∷ 375 ∷ 2197 ∷ 3197 ∷ 2893 ∷ 1493 ∷ 225 ∷ 2017 ∷ 1996 ∷ 2173 ∷ 186 ∷ 2999
    ∷ 3079 ∷ 3947 ∷ 2222 ∷ 3798 ∷ 1288 ∷ 1201 ∷ 86 ∷ 3803 ∷ 2527 ∷ 1938 ∷ 2138 ∷ 204 ∷ 340 ∷ 2187
    ∷ 480 ∷ 3602 ∷ 1936 ∷ 52 ∷ 3196 ∷ 384 ∷ 1925 ∷ 2518 ∷ []

abbrev pub cases_1200 : List ℕ
cases_1200 =
    1333 ∷ 3840 ∷ 629 ∷ 215 ∷ 880 ∷ 2717 ∷ 917 ∷ 3531 ∷ 3269 ∷ 3725 ∷ 1346 ∷ 604 ∷ 1897 ∷ 2644
    ∷ 3097 ∷ 1937 ∷ 1492 ∷ 352 ∷ 2403 ∷ 405 ∷ 3665 ∷ 1533 ∷ 2819 ∷ 3553 ∷ 1611 ∷ 1914 ∷ 2655 ∷ 814
    ∷ 3339 ∷ 2247 ∷ 2525 ∷ 3466 ∷ 1863 ∷ 669 ∷ 515 ∷ 2095 ∷ 3767 ∷ 3584 ∷ 1709 ∷ 3166 ∷ 715 ∷ 2850
    ∷ 1819 ∷ 2736 ∷ 1006 ∷ 3575 ∷ 1159 ∷ 997 ∷ 3745 ∷ 252 ∷ []

abbrev pub cases_1250 : List ℕ
cases_1250 =
    2983 ∷ 2466 ∷ 1799 ∷ 3061 ∷ 757 ∷ 1483 ∷ 3600 ∷ 165 ∷ 2773 ∷ 2815 ∷ 1452 ∷ 1602 ∷ 3448 ∷ 1671
    ∷ 1626 ∷ 3169 ∷ 3814 ∷ 1411 ∷ 736 ∷ 2754 ∷ 3950 ∷ 49 ∷ 3732 ∷ 1972 ∷ 2907 ∷ 3370 ∷ 3784 ∷ 3960
    ∷ 3150 ∷ 3168 ∷ 3481 ∷ 2974 ∷ 411 ∷ 291 ∷ 1627 ∷ 310 ∷ 830 ∷ 3811 ∷ 2354 ∷ 3232 ∷ 1903 ∷ 1966
    ∷ 1998 ∷ 3795 ∷ 3996 ∷ 3667 ∷ 2651 ∷ 2849 ∷ 3143 ∷ 2701 ∷ []

abbrev pub cases_1300 : List ℕ
cases_1300 =
    2153 ∷ 3898 ∷ 979 ∷ 383 ∷ 396 ∷ 2342 ∷ 1373 ∷ 2817 ∷ 2942 ∷ 2428 ∷ 435 ∷ 2751 ∷ 130 ∷ 1813
    ∷ 2475 ∷ 735 ∷ 1730 ∷ 2605 ∷ 3899 ∷ 19 ∷ 1351 ∷ 2401 ∷ 1380 ∷ 2147 ∷ 3869 ∷ 796 ∷ 2504 ∷ 1054
    ∷ 1489 ∷ 2752 ∷ 1571 ∷ 2707 ∷ 4020 ∷ 3378 ∷ 2241 ∷ 2786 ∷ 1949 ∷ 1009 ∷ 3934 ∷ 1714 ∷ 2447
    ∷ 3931 ∷ 2027 ∷ 2455 ∷ 4027 ∷ 802 ∷ 2015 ∷ 807 ∷ 3017 ∷ 3228 ∷ []

abbrev pub cases_1350 : List ℕ
cases_1350 =
    3886 ∷ 2863 ∷ 3308 ∷ 3781 ∷ 792 ∷ 1945 ∷ 2985 ∷ 314 ∷ 836 ∷ 265 ∷ 1242 ∷ 806 ∷ 680 ∷ 2677 ∷ 454
    ∷ 143 ∷ 3783 ∷ 787 ∷ 1786 ∷ 730 ∷ 1138 ∷ 3827 ∷ 1268 ∷ 3963 ∷ 2407 ∷ 2406 ∷ 2669 ∷ 3302 ∷ 430
    ∷ 1975 ∷ 2062 ∷ 832 ∷ 243 ∷ 2375 ∷ 1695 ∷ 3743 ∷ 1215 ∷ 801 ∷ 2898 ∷ 1228 ∷ 3112 ∷ 1221 ∷ 3201
    ∷ 277 ∷ 214 ∷ 759 ∷ 2386 ∷ 2780 ∷ 992 ∷ 3791 ∷ []
