-- ===== src/Programs/Switch/Third.antt =====
-- bench/shootout-src/switch.c, cases 1400 to 2099: the number that each case takes `^=` with.
use zwasm.Base.{ℕ, List, [], ◌∷◌}

abbrev pub cases_1400 : List ℕ
cases_1400 =
    871 ∷ 1034 ∷ 2770 ∷ 3771 ∷ 1517 ∷ 995 ∷ 1540 ∷ 1886 ∷ 3081 ∷ 2891 ∷ 3841 ∷ 452 ∷ 4085 ∷ 1644
    ∷ 2040 ∷ 3113 ∷ 3085 ∷ 3687 ∷ 2685 ∷ 2825 ∷ 1809 ∷ 3172 ∷ 3558 ∷ 260 ∷ 1987 ∷ 1887 ∷ 2132 ∷ 3094
    ∷ 3088 ∷ 73 ∷ 3787 ∷ 2318 ∷ 2434 ∷ 2611 ∷ 4076 ∷ 2450 ∷ 3592 ∷ 683 ∷ 1816 ∷ 362 ∷ 2234 ∷ 611
    ∷ 2373 ∷ 2451 ∷ 2656 ∷ 3563 ∷ 3503 ∷ 3005 ∷ 1726 ∷ 639 ∷ []

abbrev pub cases_1450 : List ℕ
cases_1450 =
    1440 ∷ 2968 ∷ 4018 ∷ 8 ∷ 3361 ∷ 3157 ∷ 3949 ∷ 1153 ∷ 409 ∷ 1530 ∷ 56 ∷ 3850 ∷ 3310 ∷ 1935 ∷ 1485
    ∷ 2212 ∷ 2158 ∷ 2139 ∷ 2614 ∷ 2946 ∷ 1563 ∷ 3892 ∷ 918 ∷ 2029 ∷ 1724 ∷ 1289 ∷ 1834 ∷ 4066 ∷ 2221
    ∷ 1021 ∷ 1964 ∷ 136 ∷ 3794 ∷ 1839 ∷ 1690 ∷ 26 ∷ 1986 ∷ 156 ∷ 2541 ∷ 3252 ∷ 3586 ∷ 741 ∷ 4090
    ∷ 3208 ∷ 1061 ∷ 3706 ∷ 3498 ∷ 2124 ∷ 3388 ∷ 2439 ∷ []

abbrev pub cases_1500 : List ℕ
cases_1500 =
    909 ∷ 2125 ∷ 2792 ∷ 2618 ∷ 133 ∷ 674 ∷ 1224 ∷ 3417 ∷ 1976 ∷ 1169 ∷ 939 ∷ 1223 ∷ 3075 ∷ 2649
    ∷ 490 ∷ 1549 ∷ 1324 ∷ 599 ∷ 3538 ∷ 2731 ∷ 3845 ∷ 3141 ∷ 3314 ∷ 711 ∷ 2253 ∷ 610 ∷ 3042 ∷ 2683
    ∷ 3651 ∷ 1932 ∷ 3464 ∷ 957 ∷ 970 ∷ 1150 ∷ 996 ∷ 10 ∷ 2816 ∷ 1133 ∷ 2698 ∷ 596 ∷ 3003 ∷ 3277
    ∷ 484 ∷ 2915 ∷ 3570 ∷ 2821 ∷ 1917 ∷ 3324 ∷ 3372 ∷ 2524 ∷ []

abbrev pub cases_1550 : List ℕ
cases_1550 =
    2119 ∷ 312 ∷ 2617 ∷ 3838 ∷ 1779 ∷ 1685 ∷ 948 ∷ 1050 ∷ 2313 ∷ 558 ∷ 1599 ∷ 750 ∷ 3268 ∷ 353
    ∷ 2720 ∷ 2464 ∷ 3111 ∷ 2060 ∷ 1869 ∷ 3148 ∷ 3429 ∷ 2804 ∷ 406 ∷ 1640 ∷ 2765 ∷ 2235 ∷ 967 ∷ 2383
    ∷ 2391 ∷ 3474 ∷ 2888 ∷ 827 ∷ 284 ∷ 4011 ∷ 3206 ∷ 472 ∷ 3480 ∷ 2198 ∷ 2586 ∷ 2637 ∷ 2230 ∷ 2462
    ∷ 2404 ∷ 1851 ∷ 1924 ∷ 2370 ∷ 3432 ∷ 2051 ∷ 3813 ∷ 3351 ∷ []

abbrev pub cases_1600 : List ℕ
cases_1600 =
    1894 ∷ 1586 ∷ 1735 ∷ 1991 ∷ 2841 ∷ 3070 ∷ 3670 ∷ 3639 ∷ 2058 ∷ 245 ∷ 122 ∷ 2146 ∷ 1909 ∷ 2465
    ∷ 915 ∷ 2564 ∷ 2271 ∷ 2755 ∷ 77 ∷ 666 ∷ 1010 ∷ 1584 ∷ 1982 ∷ 1446 ∷ 2814 ∷ 1147 ∷ 51 ∷ 2834
    ∷ 337 ∷ 1316 ∷ 1127 ∷ 3262 ∷ 789 ∷ 3890 ∷ 4060 ∷ 849 ∷ 2219 ∷ 2294 ∷ 1310 ∷ 3171 ∷ 2402 ∷ 2856
    ∷ 606 ∷ 3436 ∷ 3060 ∷ 4062 ∷ 2175 ∷ 4075 ∷ 3251 ∷ 4034 ∷ []

abbrev pub cases_1650 : List ℕ
cases_1650 =
    1916 ∷ 1906 ∷ 2437 ∷ 440 ∷ 1210 ∷ 98 ∷ 2425 ∷ 2207 ∷ 1105 ∷ 297 ∷ 619 ∷ 2668 ∷ 2633 ∷ 3418
    ∷ 1593 ∷ 2711 ∷ 2250 ∷ 2925 ∷ 3254 ∷ 1126 ∷ 998 ∷ 3610 ∷ 272 ∷ 1263 ∷ 217 ∷ 1743 ∷ 4001 ∷ 3529
    ∷ 1067 ∷ 471 ∷ 2350 ∷ 3632 ∷ 3345 ∷ 3130 ∷ 2415 ∷ 1647 ∷ 4072 ∷ 3556 ∷ 3997 ∷ 3517 ∷ 2591 ∷ 3403
    ∷ 287 ∷ 1803 ∷ 2666 ∷ 464 ∷ 3445 ∷ 3921 ∷ 259 ∷ 2788 ∷ []

abbrev pub cases_1700 : List ℕ
cases_1700 =
    316 ∷ 2183 ∷ 508 ∷ 1423 ∷ 1950 ∷ 2421 ∷ 425 ∷ 4025 ∷ 872 ∷ 816 ∷ 3246 ∷ 1296 ∷ 1701 ∷ 4037
    ∷ 1045 ∷ 3821 ∷ 1772 ∷ 634 ∷ 3242 ∷ 3505 ∷ 1146 ∷ 3730 ∷ 1470 ∷ 3008 ∷ 1191 ∷ 1416 ∷ 4088 ∷ 2236
    ∷ 656 ∷ 3634 ∷ 2790 ∷ 1727 ∷ 505 ∷ 3437 ∷ 2692 ∷ 2262 ∷ 642 ∷ 3608 ∷ 1469 ∷ 462 ∷ 895 ∷ 1104
    ∷ 1315 ∷ 1331 ∷ 2892 ∷ 251 ∷ 2382 ∷ 1020 ∷ 688 ∷ 1569 ∷ []

abbrev pub cases_1750 : List ℕ
cases_1750 =
    3607 ∷ 2151 ∷ 663 ∷ 1675 ∷ 3020 ∷ 3569 ∷ 3322 ∷ 962 ∷ 1784 ∷ 4000 ∷ 1891 ∷ 3591 ∷ 3193 ∷ 3100
    ∷ 2477 ∷ 2588 ∷ 3618 ∷ 2552 ∷ 3484 ∷ 2871 ∷ 1570 ∷ 1525 ∷ 327 ∷ 2346 ∷ 1291 ∷ 2887 ∷ 1615 ∷ 3887
    ∷ 347 ∷ 2378 ∷ 3154 ∷ 747 ∷ 3186 ∷ 2962 ∷ 2120 ∷ 16 ∷ 1405 ∷ 1435 ∷ 772 ∷ 2837 ∷ 2487 ∷ 442
    ∷ 3398 ∷ 1036 ∷ 111 ∷ 1832 ∷ 777 ∷ 2314 ∷ 2490 ∷ 2636 ∷ []

abbrev pub cases_1800 : List ℕ
cases_1800 =
    3583 ∷ 630 ∷ 2008 ∷ 3861 ∷ 678 ∷ 2178 ∷ 1332 ∷ 3472 ∷ 1777 ∷ 2927 ∷ 1705 ∷ 432 ∷ 3002 ∷ 4024
    ∷ 3544 ∷ 322 ∷ 1771 ∷ 1595 ∷ 2583 ∷ 2724 ∷ 3107 ∷ 1623 ∷ 3688 ∷ 3428 ∷ 238 ∷ 955 ∷ 4061 ∷ 2444
    ∷ 263 ∷ 1241 ∷ 2922 ∷ 1624 ∷ 2514 ∷ 3041 ∷ 4016 ∷ 3128 ∷ 1728 ∷ 1746 ∷ 2420 ∷ 2870 ∷ 1588 ∷ 1672
    ∷ 1872 ∷ 3912 ∷ 1243 ∷ 1258 ∷ 2890 ∷ 541 ∷ 1472 ∷ 140 ∷ []

abbrev pub cases_1850 : List ℕ
cases_1850 =
    797 ∷ 3839 ∷ 2492 ∷ 3823 ∷ 2358 ∷ 2397 ∷ 87 ∷ 761 ∷ 698 ∷ 3542 ∷ 2242 ∷ 330 ∷ 2704 ∷ 1236 ∷ 2516
    ∷ 1276 ∷ 1857 ∷ 1166 ∷ 1148 ∷ 794 ∷ 2844 ∷ 3266 ∷ 2156 ∷ 285 ∷ 475 ∷ 643 ∷ 1079 ∷ 2433 ∷ 1217
    ∷ 3763 ∷ 1919 ∷ 850 ∷ 448 ∷ 3364 ∷ 2901 ∷ 2049 ∷ 1787 ∷ 765 ∷ 3511 ∷ 709 ∷ 3483 ∷ 1686 ∷ 3028
    ∷ 974 ∷ 2549 ∷ 3399 ∷ 1438 ∷ 1878 ∷ 1338 ∷ 1281 ∷ []

abbrev pub cases_1900 : List ℕ
cases_1900 =
    3911 ∷ 3744 ∷ 2897 ∷ 2996 ∷ 3928 ∷ 4040 ∷ 203 ∷ 2533 ∷ 2727 ∷ 2594 ∷ 2047 ∷ 805 ∷ 2764 ∷ 3894
    ∷ 2624 ∷ 1463 ∷ 3465 ∷ 2400 ∷ 1309 ∷ 3117 ∷ 1156 ∷ 1337 ∷ 2640 ∷ 2077 ∷ 3884 ∷ 1362 ∷ 2839 ∷ 350
    ∷ 3825 ∷ 661 ∷ 1442 ∷ 2467 ∷ 3675 ∷ 3550 ∷ 571 ∷ 2949 ∷ 2964 ∷ 3073 ∷ 1708 ∷ 810 ∷ 4043 ∷ 704
    ∷ 2551 ∷ 3414 ∷ 3330 ∷ 576 ∷ 1448 ∷ 721 ∷ 2512 ∷ 1480 ∷ []

abbrev pub cases_1950 : List ℕ
cases_1950 =
    1907 ∷ 2931 ∷ 242 ∷ 1740 ∷ 555 ∷ 2561 ∷ 1170 ∷ 1192 ∷ 3578 ∷ 3106 ∷ 740 ∷ 2064 ∷ 1011 ∷ 1279
    ∷ 2039 ∷ 167 ∷ 145 ∷ 135 ∷ 3253 ∷ 2543 ∷ 268 ∷ 378 ∷ 1946 ∷ 2022 ∷ 423 ∷ 1896 ∷ 1673 ∷ 1702
    ∷ 3219 ∷ 961 ∷ 1400 ∷ 950 ∷ 1075 ∷ 1043 ∷ 2074 ∷ 1600 ∷ 1246 ∷ 1591 ∷ 3630 ∷ 985 ∷ 2113 ∷ 779
    ∷ 3032 ∷ 3108 ∷ 4036 ∷ 290 ∷ 2627 ∷ 2302 ∷ 1646 ∷ 3049 ∷ []

abbrev pub cases_2000 : List ℕ
cases_2000 =
    3519 ∷ 3856 ∷ 1027 ∷ 3152 ∷ 1048 ∷ 1092 ∷ 2446 ∷ 1679 ∷ 1160 ∷ 969 ∷ 2279 ∷ 3265 ∷ 834 ∷ 132
    ∷ 1520 ∷ 1622 ∷ 3016 ∷ 3958 ∷ 1524 ∷ 2083 ∷ 2032 ∷ 2896 ∷ 529 ∷ 2509 ∷ 3863 ∷ 2832 ∷ 990 ∷ 2820
    ∷ 3530 ∷ 414 ∷ 1968 ∷ 427 ∷ 506 ∷ 3279 ∷ 1513 ∷ 1371 ∷ 2851 ∷ 407 ∷ 332 ∷ 3698 ∷ 2272 ∷ 2878
    ∷ 1597 ∷ 123 ∷ 2604 ∷ 2217 ∷ 2031 ∷ 3348 ∷ 2623 ∷ 3102 ∷ []

abbrev pub cases_2050 : List ℕ
cases_2050 =
    3557 ∷ 1822 ∷ 1889 ∷ 3315 ∷ 1414 ∷ 843 ∷ 2180 ∷ 4004 ∷ 892 ∷ 716 ∷ 2781 ∷ 58 ∷ 3366 ∷ 20 ∷ 218
    ∷ 2493 ∷ 1905 ∷ 3551 ∷ 4092 ∷ 2237 ∷ 2615 ∷ 3122 ∷ 1410 ∷ 2750 ∷ 2229 ∷ 524 ∷ 3033 ∷ 4082 ∷ 3943
    ∷ 3163 ∷ 1974 ∷ 3523 ∷ 594 ∷ 1557 ∷ 2036 ∷ 1643 ∷ 453 ∷ 267 ∷ 3312 ∷ 2463 ∷ 1710 ∷ 519 ∷ 2152
    ∷ 1204 ∷ 809 ∷ 1341 ∷ 458 ∷ 631 ∷ 2098 ∷ 109 ∷ []
