-- ===== src/Programs/Keccak/Rounds/First.antt =====
-- bench/shootout-src/keccak.c, the statements of rounds 1 and 2 of `keccak_core`.
use zwasm.Base.{bit_xor}
use zwasm.Programs.Keccak.Lanes.{Lanes, xor5, rotl64, chi}

unfoldable pub round_1 : Lanes → Lanes
round_1 s =
    let ca = xor5 s.ba s.ga s.ka s.ma s.sa in
    let ce = xor5 s.be s.ge s.ke s.me s.se in
    let ci = xor5 s.bi s.gi s.ki s.mi s.si in
    let co = xor5 s.bo s.go s.ko s.mo s.so in
    let cu = xor5 s.bu s.gu s.ku s.mu s.su in
    let d_a = bit_xor cu (rotl64 ce 1) in
    let d_e = bit_xor ca (rotl64 ci 1) in
    let d_i = bit_xor ce (rotl64 co 1) in
    let d_o = bit_xor ci (rotl64 cu 1) in
    let d_u = bit_xor co (rotl64 ca 1) in
    let aba = bit_xor s.ba d_a in
    let ca = aba in
    let age = bit_xor s.ge d_e in
    let ce = rotl64 age 44 in
    let aki = bit_xor s.ki d_i in
    let ci = rotl64 aki 43 in
    let amo = bit_xor s.mo d_o in
    let co = rotl64 amo 21 in
    let asu = bit_xor s.su d_u in
    let cu = rotl64 asu 14 in
    let eba = chi ca ce ci in
    let eba = bit_xor eba 0x0000000000000001 in
    let ebe = chi ce ci co in
    let ebi = chi ci co cu in
    let ebo = chi co cu ca in
    let ebu = chi cu ca ce in
    let abo = bit_xor s.bo d_o in
    let ca = rotl64 abo 28 in
    let agu = bit_xor s.gu d_u in
    let ce = rotl64 agu 20 in
    let aka = bit_xor s.ka d_a in
    let ci = rotl64 aka 3 in
    let ame = bit_xor s.me d_e in
    let co = rotl64 ame 45 in
    let asi = bit_xor s.si d_i in
    let cu = rotl64 asi 61 in
    let ega = chi ca ce ci in
    let ege = chi ce ci co in
    let egi = chi ci co cu in
    let ego = chi co cu ca in
    let egu = chi cu ca ce in
    let abe = bit_xor s.be d_e in
    let ca = rotl64 abe 1 in
    let agi = bit_xor s.gi d_i in
    let ce = rotl64 agi 6 in
    let ako = bit_xor s.ko d_o in
    let ci = rotl64 ako 25 in
    let amu = bit_xor s.mu d_u in
    let co = rotl64 amu 8 in
    let asa = bit_xor s.sa d_a in
    let cu = rotl64 asa 18 in
    let eka = chi ca ce ci in
    let eke = chi ce ci co in
    let eki = chi ci co cu in
    let eko = chi co cu ca in
    let eku = chi cu ca ce in
    let abu = bit_xor s.bu d_u in
    let ca = rotl64 abu 27 in
    let aga = bit_xor s.ga d_a in
    let ce = rotl64 aga 36 in
    let ake = bit_xor s.ke d_e in
    let ci = rotl64 ake 10 in
    let ami = bit_xor s.mi d_i in
    let co = rotl64 ami 15 in
    let aso = bit_xor s.so d_o in
    let cu = rotl64 aso 56 in
    let ema = chi ca ce ci in
    let eme = chi ce ci co in
    let emi = chi ci co cu in
    let emo = chi co cu ca in
    let emu = chi cu ca ce in
    let abi = bit_xor s.bi d_i in
    let ca = rotl64 abi 62 in
    let ago = bit_xor s.go d_o in
    let ce = rotl64 ago 55 in
    let aku = bit_xor s.ku d_u in
    let ci = rotl64 aku 39 in
    let ama = bit_xor s.ma d_a in
    let co = rotl64 ama 41 in
    let ase = bit_xor s.se d_e in
    let cu = rotl64 ase 2 in
    let esa = chi ca ce ci in
    let ese = chi ce ci co in
    let esi = chi ci co cu in
    let eso = chi co cu ca in
    let esu = chi cu ca ce in
    record {
      ba = eba;
      be = ebe;
      bi = ebi;
      bo = ebo;
      bu = ebu;
      ga = ega;
      ge = ege;
      gi = egi;
      go = ego;
      gu = egu;
      ka = eka;
      ke = eke;
      ki = eki;
      ko = eko;
      ku = eku;
      ma = ema;
      me = eme;
      mi = emi;
      mo = emo;
      mu = emu;
      sa = esa;
      se = ese;
      si = esi;
      so = eso;
      su = esu;
    }

unfoldable pub round_2 : Lanes → Lanes
round_2 s =
    let ca = xor5 s.ba s.ga s.ka s.ma s.sa in
    let ce = xor5 s.be s.ge s.ke s.me s.se in
    let ci = xor5 s.bi s.gi s.ki s.mi s.si in
    let co = xor5 s.bo s.go s.ko s.mo s.so in
    let cu = xor5 s.bu s.gu s.ku s.mu s.su in
    let d_a = bit_xor cu (rotl64 ce 1) in
    let d_e = bit_xor ca (rotl64 ci 1) in
    let d_i = bit_xor ce (rotl64 co 1) in
    let d_o = bit_xor ci (rotl64 cu 1) in
    let d_u = bit_xor co (rotl64 ca 1) in
    let eba = bit_xor s.ba d_a in
    let ca = eba in
    let ege = bit_xor s.ge d_e in
    let ce = rotl64 ege 44 in
    let eki = bit_xor s.ki d_i in
    let ci = rotl64 eki 43 in
    let emo = bit_xor s.mo d_o in
    let co = rotl64 emo 21 in
    let esu = bit_xor s.su d_u in
    let cu = rotl64 esu 14 in
    let aba = chi ca ce ci in
    let aba = bit_xor aba 0x0000000000008082 in
    let abe = chi ce ci co in
    let abi = chi ci co cu in
    let abo = chi co cu ca in
    let abu = chi cu ca ce in
    let ebo = bit_xor s.bo d_o in
    let ca = rotl64 ebo 28 in
    let egu = bit_xor s.gu d_u in
    let ce = rotl64 egu 20 in
    let eka = bit_xor s.ka d_a in
    let ci = rotl64 eka 3 in
    let eme = bit_xor s.me d_e in
    let co = rotl64 eme 45 in
    let esi = bit_xor s.si d_i in
    let cu = rotl64 esi 61 in
    let aga = chi ca ce ci in
    let age = chi ce ci co in
    let agi = chi ci co cu in
    let ago = chi co cu ca in
    let agu = chi cu ca ce in
    let ebe = bit_xor s.be d_e in
    let ca = rotl64 ebe 1 in
    let egi = bit_xor s.gi d_i in
    let ce = rotl64 egi 6 in
    let eko = bit_xor s.ko d_o in
    let ci = rotl64 eko 25 in
    let emu = bit_xor s.mu d_u in
    let co = rotl64 emu 8 in
    let esa = bit_xor s.sa d_a in
    let cu = rotl64 esa 18 in
    let aka = chi ca ce ci in
    let ake = chi ce ci co in
    let aki = chi ci co cu in
    let ako = chi co cu ca in
    let aku = chi cu ca ce in
    let ebu = bit_xor s.bu d_u in
    let ca = rotl64 ebu 27 in
    let ega = bit_xor s.ga d_a in
    let ce = rotl64 ega 36 in
    let eke = bit_xor s.ke d_e in
    let ci = rotl64 eke 10 in
    let emi = bit_xor s.mi d_i in
    let co = rotl64 emi 15 in
    let eso = bit_xor s.so d_o in
    let cu = rotl64 eso 56 in
    let ama = chi ca ce ci in
    let ame = chi ce ci co in
    let ami = chi ci co cu in
    let amo = chi co cu ca in
    let amu = chi cu ca ce in
    let ebi = bit_xor s.bi d_i in
    let ca = rotl64 ebi 62 in
    let ego = bit_xor s.go d_o in
    let ce = rotl64 ego 55 in
    let eku = bit_xor s.ku d_u in
    let ci = rotl64 eku 39 in
    let ema = bit_xor s.ma d_a in
    let co = rotl64 ema 41 in
    let ese = bit_xor s.se d_e in
    let cu = rotl64 ese 2 in
    let asa = chi ca ce ci in
    let ase = chi ce ci co in
    let asi = chi ci co cu in
    let aso = chi co cu ca in
    let asu = chi cu ca ce in
    record {
      ba = aba;
      be = abe;
      bi = abi;
      bo = abo;
      bu = abu;
      ga = aga;
      ge = age;
      gi = agi;
      go = ago;
      gu = agu;
      ka = aka;
      ke = ake;
      ki = aki;
      ko = ako;
      ku = aku;
      ma = ama;
      me = ame;
      mi = ami;
      mo = amo;
      mu = amu;
      sa = asa;
      se = ase;
      si = asi;
      so = aso;
      su = asu;
    }
