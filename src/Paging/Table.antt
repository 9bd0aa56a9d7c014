-- ===== src/Paging/Table.antt =====
-- kern/entrypgdir.c: the 1024 page addresses of entry_pgtable as the source writes them out.
use sisop_tps.Prelude.{ℕ, List, [], ◌∷◌, ◌++◌}

-- The addresses, 128 lines of the source at a time.
abbrev pub pages_at_0_kb : List ℕ
pages_at_0_kb =
    0x00_0000 ∷ 0x00_1000 ∷ 0x00_2000 ∷ 0x00_3000 ∷ 0x00_4000 ∷ 0x00_5000 ∷ 0x00_6000 ∷ 0x00_7000
    ∷ 0x00_8000 ∷ 0x00_9000 ∷ 0x00_a000 ∷ 0x00_b000 ∷ 0x00_c000 ∷ 0x00_d000 ∷ 0x00_e000 ∷ 0x00_f000
    ∷ 0x01_0000 ∷ 0x01_1000 ∷ 0x01_2000 ∷ 0x01_3000 ∷ 0x01_4000 ∷ 0x01_5000 ∷ 0x01_6000 ∷ 0x01_7000
    ∷ 0x01_8000 ∷ 0x01_9000 ∷ 0x01_a000 ∷ 0x01_b000 ∷ 0x01_c000 ∷ 0x01_d000 ∷ 0x01_e000 ∷ 0x01_f000
    ∷ 0x02_0000 ∷ 0x02_1000 ∷ 0x02_2000 ∷ 0x02_3000 ∷ 0x02_4000 ∷ 0x02_5000 ∷ 0x02_6000 ∷ 0x02_7000
    ∷ 0x02_8000 ∷ 0x02_9000 ∷ 0x02_a000 ∷ 0x02_b000 ∷ 0x02_c000 ∷ 0x02_d000 ∷ 0x02_e000 ∷ 0x02_f000
    ∷ 0x03_0000 ∷ 0x03_1000 ∷ 0x03_2000 ∷ 0x03_3000 ∷ 0x03_4000 ∷ 0x03_5000 ∷ 0x03_6000 ∷ 0x03_7000
    ∷ 0x03_8000 ∷ 0x03_9000 ∷ 0x03_a000 ∷ 0x03_b000 ∷ 0x03_c000 ∷ 0x03_d000 ∷ 0x03_e000 ∷ 0x03_f000
    ∷ 0x04_0000 ∷ 0x04_1000 ∷ 0x04_2000 ∷ 0x04_3000 ∷ 0x04_4000 ∷ 0x04_5000 ∷ 0x04_6000 ∷ 0x04_7000
    ∷ 0x04_8000 ∷ 0x04_9000 ∷ 0x04_a000 ∷ 0x04_b000 ∷ 0x04_c000 ∷ 0x04_d000 ∷ 0x04_e000 ∷ 0x04_f000
    ∷ 0x05_0000 ∷ 0x05_1000 ∷ 0x05_2000 ∷ 0x05_3000 ∷ 0x05_4000 ∷ 0x05_5000 ∷ 0x05_6000 ∷ 0x05_7000
    ∷ 0x05_8000 ∷ 0x05_9000 ∷ 0x05_a000 ∷ 0x05_b000 ∷ 0x05_c000 ∷ 0x05_d000 ∷ 0x05_e000 ∷ 0x05_f000
    ∷ 0x06_0000 ∷ 0x06_1000 ∷ 0x06_2000 ∷ 0x06_3000 ∷ 0x06_4000 ∷ 0x06_5000 ∷ 0x06_6000 ∷ 0x06_7000
    ∷ 0x06_8000 ∷ 0x06_9000 ∷ 0x06_a000 ∷ 0x06_b000 ∷ 0x06_c000 ∷ 0x06_d000 ∷ 0x06_e000 ∷ 0x06_f000
    ∷ 0x07_0000 ∷ 0x07_1000 ∷ 0x07_2000 ∷ 0x07_3000 ∷ 0x07_4000 ∷ 0x07_5000 ∷ 0x07_6000 ∷ 0x07_7000
    ∷ 0x07_8000 ∷ 0x07_9000 ∷ 0x07_a000 ∷ 0x07_b000 ∷ 0x07_c000 ∷ 0x07_d000 ∷ 0x07_e000 ∷ 0x07_f000
    ∷ []

abbrev pub pages_at_512_kb : List ℕ
pages_at_512_kb =
    0x08_0000 ∷ 0x08_1000 ∷ 0x08_2000 ∷ 0x08_3000 ∷ 0x08_4000 ∷ 0x08_5000 ∷ 0x08_6000 ∷ 0x08_7000
    ∷ 0x08_8000 ∷ 0x08_9000 ∷ 0x08_a000 ∷ 0x08_b000 ∷ 0x08_c000 ∷ 0x08_d000 ∷ 0x08_e000 ∷ 0x08_f000
    ∷ 0x09_0000 ∷ 0x09_1000 ∷ 0x09_2000 ∷ 0x09_3000 ∷ 0x09_4000 ∷ 0x09_5000 ∷ 0x09_6000 ∷ 0x09_7000
    ∷ 0x09_8000 ∷ 0x09_9000 ∷ 0x09_a000 ∷ 0x09_b000 ∷ 0x09_c000 ∷ 0x09_d000 ∷ 0x09_e000 ∷ 0x09_f000
    ∷ 0x0a_0000 ∷ 0x0a_1000 ∷ 0x0a_2000 ∷ 0x0a_3000 ∷ 0x0a_4000 ∷ 0x0a_5000 ∷ 0x0a_6000 ∷ 0x0a_7000
    ∷ 0x0a_8000 ∷ 0x0a_9000 ∷ 0x0a_a000 ∷ 0x0a_b000 ∷ 0x0a_c000 ∷ 0x0a_d000 ∷ 0x0a_e000 ∷ 0x0a_f000
    ∷ 0x0b_0000 ∷ 0x0b_1000 ∷ 0x0b_2000 ∷ 0x0b_3000 ∷ 0x0b_4000 ∷ 0x0b_5000 ∷ 0x0b_6000 ∷ 0x0b_7000
    ∷ 0x0b_8000 ∷ 0x0b_9000 ∷ 0x0b_a000 ∷ 0x0b_b000 ∷ 0x0b_c000 ∷ 0x0b_d000 ∷ 0x0b_e000 ∷ 0x0b_f000
    ∷ 0x0c_0000 ∷ 0x0c_1000 ∷ 0x0c_2000 ∷ 0x0c_3000 ∷ 0x0c_4000 ∷ 0x0c_5000 ∷ 0x0c_6000 ∷ 0x0c_7000
    ∷ 0x0c_8000 ∷ 0x0c_9000 ∷ 0x0c_a000 ∷ 0x0c_b000 ∷ 0x0c_c000 ∷ 0x0c_d000 ∷ 0x0c_e000 ∷ 0x0c_f000
    ∷ 0x0d_0000 ∷ 0x0d_1000 ∷ 0x0d_2000 ∷ 0x0d_3000 ∷ 0x0d_4000 ∷ 0x0d_5000 ∷ 0x0d_6000 ∷ 0x0d_7000
    ∷ 0x0d_8000 ∷ 0x0d_9000 ∷ 0x0d_a000 ∷ 0x0d_b000 ∷ 0x0d_c000 ∷ 0x0d_d000 ∷ 0x0d_e000 ∷ 0x0d_f000
    ∷ 0x0e_0000 ∷ 0x0e_1000 ∷ 0x0e_2000 ∷ 0x0e_3000 ∷ 0x0e_4000 ∷ 0x0e_5000 ∷ 0x0e_6000 ∷ 0x0e_7000
    ∷ 0x0e_8000 ∷ 0x0e_9000 ∷ 0x0e_a000 ∷ 0x0e_b000 ∷ 0x0e_c000 ∷ 0x0e_d000 ∷ 0x0e_e000 ∷ 0x0e_f000
    ∷ 0x0f_0000 ∷ 0x0f_1000 ∷ 0x0f_2000 ∷ 0x0f_3000 ∷ 0x0f_4000 ∷ 0x0f_5000 ∷ 0x0f_6000 ∷ 0x0f_7000
    ∷ 0x0f_8000 ∷ 0x0f_9000 ∷ 0x0f_a000 ∷ 0x0f_b000 ∷ 0x0f_c000 ∷ 0x0f_d000 ∷ 0x0f_e000 ∷ 0x0f_f000
    ∷ []

abbrev pub pages_at_1024_kb : List ℕ
pages_at_1024_kb =
    0x10_0000 ∷ 0x10_1000 ∷ 0x10_2000 ∷ 0x10_3000 ∷ 0x10_4000 ∷ 0x10_5000 ∷ 0x10_6000 ∷ 0x10_7000
    ∷ 0x10_8000 ∷ 0x10_9000 ∷ 0x10_a000 ∷ 0x10_b000 ∷ 0x10_c000 ∷ 0x10_d000 ∷ 0x10_e000 ∷ 0x10_f000
    ∷ 0x11_0000 ∷ 0x11_1000 ∷ 0x11_2000 ∷ 0x11_3000 ∷ 0x11_4000 ∷ 0x11_5000 ∷ 0x11_6000 ∷ 0x11_7000
    ∷ 0x11_8000 ∷ 0x11_9000 ∷ 0x11_a000 ∷ 0x11_b000 ∷ 0x11_c000 ∷ 0x11_d000 ∷ 0x11_e000 ∷ 0x11_f000
    ∷ 0x12_0000 ∷ 0x12_1000 ∷ 0x12_2000 ∷ 0x12_3000 ∷ 0x12_4000 ∷ 0x12_5000 ∷ 0x12_6000 ∷ 0x12_7000
    ∷ 0x12_8000 ∷ 0x12_9000 ∷ 0x12_a000 ∷ 0x12_b000 ∷ 0x12_c000 ∷ 0x12_d000 ∷ 0x12_e000 ∷ 0x12_f000
    ∷ 0x13_0000 ∷ 0x13_1000 ∷ 0x13_2000 ∷ 0x13_3000 ∷ 0x13_4000 ∷ 0x13_5000 ∷ 0x13_6000 ∷ 0x13_7000
    ∷ 0x13_8000 ∷ 0x13_9000 ∷ 0x13_a000 ∷ 0x13_b000 ∷ 0x13_c000 ∷ 0x13_d000 ∷ 0x13_e000 ∷ 0x13_f000
    ∷ 0x14_0000 ∷ 0x14_1000 ∷ 0x14_2000 ∷ 0x14_3000 ∷ 0x14_4000 ∷ 0x14_5000 ∷ 0x14_6000 ∷ 0x14_7000
    ∷ 0x14_8000 ∷ 0x14_9000 ∷ 0x14_a000 ∷ 0x14_b000 ∷ 0x14_c000 ∷ 0x14_d000 ∷ 0x14_e000 ∷ 0x14_f000
    ∷ 0x15_0000 ∷ 0x15_1000 ∷ 0x15_2000 ∷ 0x15_3000 ∷ 0x15_4000 ∷ 0x15_5000 ∷ 0x15_6000 ∷ 0x15_7000
    ∷ 0x15_8000 ∷ 0x15_9000 ∷ 0x15_a000 ∷ 0x15_b000 ∷ 0x15_c000 ∷ 0x15_d000 ∷ 0x15_e000 ∷ 0x15_f000
    ∷ 0x16_0000 ∷ 0x16_1000 ∷ 0x16_2000 ∷ 0x16_3000 ∷ 0x16_4000 ∷ 0x16_5000 ∷ 0x16_6000 ∷ 0x16_7000
    ∷ 0x16_8000 ∷ 0x16_9000 ∷ 0x16_a000 ∷ 0x16_b000 ∷ 0x16_c000 ∷ 0x16_d000 ∷ 0x16_e000 ∷ 0x16_f000
    ∷ 0x17_0000 ∷ 0x17_1000 ∷ 0x17_2000 ∷ 0x17_3000 ∷ 0x17_4000 ∷ 0x17_5000 ∷ 0x17_6000 ∷ 0x17_7000
    ∷ 0x17_8000 ∷ 0x17_9000 ∷ 0x17_a000 ∷ 0x17_b000 ∷ 0x17_c000 ∷ 0x17_d000 ∷ 0x17_e000 ∷ 0x17_f000
    ∷ []

abbrev pub pages_at_1536_kb : List ℕ
pages_at_1536_kb =
    0x18_0000 ∷ 0x18_1000 ∷ 0x18_2000 ∷ 0x18_3000 ∷ 0x18_4000 ∷ 0x18_5000 ∷ 0x18_6000 ∷ 0x18_7000
    ∷ 0x18_8000 ∷ 0x18_9000 ∷ 0x18_a000 ∷ 0x18_b000 ∷ 0x18_c000 ∷ 0x18_d000 ∷ 0x18_e000 ∷ 0x18_f000
    ∷ 0x19_0000 ∷ 0x19_1000 ∷ 0x19_2000 ∷ 0x19_3000 ∷ 0x19_4000 ∷ 0x19_5000 ∷ 0x19_6000 ∷ 0x19_7000
    ∷ 0x19_8000 ∷ 0x19_9000 ∷ 0x19_a000 ∷ 0x19_b000 ∷ 0x19_c000 ∷ 0x19_d000 ∷ 0x19_e000 ∷ 0x19_f000
    ∷ 0x1a_0000 ∷ 0x1a_1000 ∷ 0x1a_2000 ∷ 0x1a_3000 ∷ 0x1a_4000 ∷ 0x1a_5000 ∷ 0x1a_6000 ∷ 0x1a_7000
    ∷ 0x1a_8000 ∷ 0x1a_9000 ∷ 0x1a_a000 ∷ 0x1a_b000 ∷ 0x1a_c000 ∷ 0x1a_d000 ∷ 0x1a_e000 ∷ 0x1a_f000
    ∷ 0x1b_0000 ∷ 0x1b_1000 ∷ 0x1b_2000 ∷ 0x1b_3000 ∷ 0x1b_4000 ∷ 0x1b_5000 ∷ 0x1b_6000 ∷ 0x1b_7000
    ∷ 0x1b_8000 ∷ 0x1b_9000 ∷ 0x1b_a000 ∷ 0x1b_b000 ∷ 0x1b_c000 ∷ 0x1b_d000 ∷ 0x1b_e000 ∷ 0x1b_f000
    ∷ 0x1c_0000 ∷ 0x1c_1000 ∷ 0x1c_2000 ∷ 0x1c_3000 ∷ 0x1c_4000 ∷ 0x1c_5000 ∷ 0x1c_6000 ∷ 0x1c_7000
    ∷ 0x1c_8000 ∷ 0x1c_9000 ∷ 0x1c_a000 ∷ 0x1c_b000 ∷ 0x1c_c000 ∷ 0x1c_d000 ∷ 0x1c_e000 ∷ 0x1c_f000
    ∷ 0x1d_0000 ∷ 0x1d_1000 ∷ 0x1d_2000 ∷ 0x1d_3000 ∷ 0x1d_4000 ∷ 0x1d_5000 ∷ 0x1d_6000 ∷ 0x1d_7000
    ∷ 0x1d_8000 ∷ 0x1d_9000 ∷ 0x1d_a000 ∷ 0x1d_b000 ∷ 0x1d_c000 ∷ 0x1d_d000 ∷ 0x1d_e000 ∷ 0x1d_f000
    ∷ 0x1e_0000 ∷ 0x1e_1000 ∷ 0x1e_2000 ∷ 0x1e_3000 ∷ 0x1e_4000 ∷ 0x1e_5000 ∷ 0x1e_6000 ∷ 0x1e_7000
    ∷ 0x1e_8000 ∷ 0x1e_9000 ∷ 0x1e_a000 ∷ 0x1e_b000 ∷ 0x1e_c000 ∷ 0x1e_d000 ∷ 0x1e_e000 ∷ 0x1e_f000
    ∷ 0x1f_0000 ∷ 0x1f_1000 ∷ 0x1f_2000 ∷ 0x1f_3000 ∷ 0x1f_4000 ∷ 0x1f_5000 ∷ 0x1f_6000 ∷ 0x1f_7000
    ∷ 0x1f_8000 ∷ 0x1f_9000 ∷ 0x1f_a000 ∷ 0x1f_b000 ∷ 0x1f_c000 ∷ 0x1f_d000 ∷ 0x1f_e000 ∷ 0x1f_f000
    ∷ []

abbrev pub pages_at_2048_kb : List ℕ
pages_at_2048_kb =
    0x20_0000 ∷ 0x20_1000 ∷ 0x20_2000 ∷ 0x20_3000 ∷ 0x20_4000 ∷ 0x20_5000 ∷ 0x20_6000 ∷ 0x20_7000
    ∷ 0x20_8000 ∷ 0x20_9000 ∷ 0x20_a000 ∷ 0x20_b000 ∷ 0x20_c000 ∷ 0x20_d000 ∷ 0x20_e000 ∷ 0x20_f000
    ∷ 0x21_0000 ∷ 0x21_1000 ∷ 0x21_2000 ∷ 0x21_3000 ∷ 0x21_4000 ∷ 0x21_5000 ∷ 0x21_6000 ∷ 0x21_7000
    ∷ 0x21_8000 ∷ 0x21_9000 ∷ 0x21_a000 ∷ 0x21_b000 ∷ 0x21_c000 ∷ 0x21_d000 ∷ 0x21_e000 ∷ 0x21_f000
    ∷ 0x22_0000 ∷ 0x22_1000 ∷ 0x22_2000 ∷ 0x22_3000 ∷ 0x22_4000 ∷ 0x22_5000 ∷ 0x22_6000 ∷ 0x22_7000
    ∷ 0x22_8000 ∷ 0x22_9000 ∷ 0x22_a000 ∷ 0x22_b000 ∷ 0x22_c000 ∷ 0x22_d000 ∷ 0x22_e000 ∷ 0x22_f000
    ∷ 0x23_0000 ∷ 0x23_1000 ∷ 0x23_2000 ∷ 0x23_3000 ∷ 0x23_4000 ∷ 0x23_5000 ∷ 0x23_6000 ∷ 0x23_7000
    ∷ 0x23_8000 ∷ 0x23_9000 ∷ 0x23_a000 ∷ 0x23_b000 ∷ 0x23_c000 ∷ 0x23_d000 ∷ 0x23_e000 ∷ 0x23_f000
    ∷ 0x24_0000 ∷ 0x24_1000 ∷ 0x24_2000 ∷ 0x24_3000 ∷ 0x24_4000 ∷ 0x24_5000 ∷ 0x24_6000 ∷ 0x24_7000
    ∷ 0x24_8000 ∷ 0x24_9000 ∷ 0x24_a000 ∷ 0x24_b000 ∷ 0x24_c000 ∷ 0x24_d000 ∷ 0x24_e000 ∷ 0x24_f000
    ∷ 0x25_0000 ∷ 0x25_1000 ∷ 0x25_2000 ∷ 0x25_3000 ∷ 0x25_4000 ∷ 0x25_5000 ∷ 0x25_6000 ∷ 0x25_7000
    ∷ 0x25_8000 ∷ 0x25_9000 ∷ 0x25_a000 ∷ 0x25_b000 ∷ 0x25_c000 ∷ 0x25_d000 ∷ 0x25_e000 ∷ 0x25_f000
    ∷ 0x26_0000 ∷ 0x26_1000 ∷ 0x26_2000 ∷ 0x26_3000 ∷ 0x26_4000 ∷ 0x26_5000 ∷ 0x26_6000 ∷ 0x26_7000
    ∷ 0x26_8000 ∷ 0x26_9000 ∷ 0x26_a000 ∷ 0x26_b000 ∷ 0x26_c000 ∷ 0x26_d000 ∷ 0x26_e000 ∷ 0x26_f000
    ∷ 0x27_0000 ∷ 0x27_1000 ∷ 0x27_2000 ∷ 0x27_3000 ∷ 0x27_4000 ∷ 0x27_5000 ∷ 0x27_6000 ∷ 0x27_7000
    ∷ 0x27_8000 ∷ 0x27_9000 ∷ 0x27_a000 ∷ 0x27_b000 ∷ 0x27_c000 ∷ 0x27_d000 ∷ 0x27_e000 ∷ 0x27_f000
    ∷ []

abbrev pub pages_at_2560_kb : List ℕ
pages_at_2560_kb =
    0x28_0000 ∷ 0x28_1000 ∷ 0x28_2000 ∷ 0x28_3000 ∷ 0x28_4000 ∷ 0x28_5000 ∷ 0x28_6000 ∷ 0x28_7000
    ∷ 0x28_8000 ∷ 0x28_9000 ∷ 0x28_a000 ∷ 0x28_b000 ∷ 0x28_c000 ∷ 0x28_d000 ∷ 0x28_e000 ∷ 0x28_f000
    ∷ 0x29_0000 ∷ 0x29_1000 ∷ 0x29_2000 ∷ 0x29_3000 ∷ 0x29_4000 ∷ 0x29_5000 ∷ 0x29_6000 ∷ 0x29_7000
    ∷ 0x29_8000 ∷ 0x29_9000 ∷ 0x29_a000 ∷ 0x29_b000 ∷ 0x29_c000 ∷ 0x29_d000 ∷ 0x29_e000 ∷ 0x29_f000
    ∷ 0x2a_0000 ∷ 0x2a_1000 ∷ 0x2a_2000 ∷ 0x2a_3000 ∷ 0x2a_4000 ∷ 0x2a_5000 ∷ 0x2a_6000 ∷ 0x2a_7000
    ∷ 0x2a_8000 ∷ 0x2a_9000 ∷ 0x2a_a000 ∷ 0x2a_b000 ∷ 0x2a_c000 ∷ 0x2a_d000 ∷ 0x2a_e000 ∷ 0x2a_f000
    ∷ 0x2b_0000 ∷ 0x2b_1000 ∷ 0x2b_2000 ∷ 0x2b_3000 ∷ 0x2b_4000 ∷ 0x2b_5000 ∷ 0x2b_6000 ∷ 0x2b_7000
    ∷ 0x2b_8000 ∷ 0x2b_9000 ∷ 0x2b_a000 ∷ 0x2b_b000 ∷ 0x2b_c000 ∷ 0x2b_d000 ∷ 0x2b_e000 ∷ 0x2b_f000
    ∷ 0x2c_0000 ∷ 0x2c_1000 ∷ 0x2c_2000 ∷ 0x2c_3000 ∷ 0x2c_4000 ∷ 0x2c_5000 ∷ 0x2c_6000 ∷ 0x2c_7000
    ∷ 0x2c_8000 ∷ 0x2c_9000 ∷ 0x2c_a000 ∷ 0x2c_b000 ∷ 0x2c_c000 ∷ 0x2c_d000 ∷ 0x2c_e000 ∷ 0x2c_f000
    ∷ 0x2d_0000 ∷ 0x2d_1000 ∷ 0x2d_2000 ∷ 0x2d_3000 ∷ 0x2d_4000 ∷ 0x2d_5000 ∷ 0x2d_6000 ∷ 0x2d_7000
    ∷ 0x2d_8000 ∷ 0x2d_9000 ∷ 0x2d_a000 ∷ 0x2d_b000 ∷ 0x2d_c000 ∷ 0x2d_d000 ∷ 0x2d_e000 ∷ 0x2d_f000
    ∷ 0x2e_0000 ∷ 0x2e_1000 ∷ 0x2e_2000 ∷ 0x2e_3000 ∷ 0x2e_4000 ∷ 0x2e_5000 ∷ 0x2e_6000 ∷ 0x2e_7000
    ∷ 0x2e_8000 ∷ 0x2e_9000 ∷ 0x2e_a000 ∷ 0x2e_b000 ∷ 0x2e_c000 ∷ 0x2e_d000 ∷ 0x2e_e000 ∷ 0x2e_f000
    ∷ 0x2f_0000 ∷ 0x2f_1000 ∷ 0x2f_2000 ∷ 0x2f_3000 ∷ 0x2f_4000 ∷ 0x2f_5000 ∷ 0x2f_6000 ∷ 0x2f_7000
    ∷ 0x2f_8000 ∷ 0x2f_9000 ∷ 0x2f_a000 ∷ 0x2f_b000 ∷ 0x2f_c000 ∷ 0x2f_d000 ∷ 0x2f_e000 ∷ 0x2f_f000
    ∷ []

abbrev pub pages_at_3072_kb : List ℕ
pages_at_3072_kb =
    0x30_0000 ∷ 0x30_1000 ∷ 0x30_2000 ∷ 0x30_3000 ∷ 0x30_4000 ∷ 0x30_5000 ∷ 0x30_6000 ∷ 0x30_7000
    ∷ 0x30_8000 ∷ 0x30_9000 ∷ 0x30_a000 ∷ 0x30_b000 ∷ 0x30_c000 ∷ 0x30_d000 ∷ 0x30_e000 ∷ 0x30_f000
    ∷ 0x31_0000 ∷ 0x31_1000 ∷ 0x31_2000 ∷ 0x31_3000 ∷ 0x31_4000 ∷ 0x31_5000 ∷ 0x31_6000 ∷ 0x31_7000
    ∷ 0x31_8000 ∷ 0x31_9000 ∷ 0x31_a000 ∷ 0x31_b000 ∷ 0x31_c000 ∷ 0x31_d000 ∷ 0x31_e000 ∷ 0x31_f000
    ∷ 0x32_0000 ∷ 0x32_1000 ∷ 0x32_2000 ∷ 0x32_3000 ∷ 0x32_4000 ∷ 0x32_5000 ∷ 0x32_6000 ∷ 0x32_7000
    ∷ 0x32_8000 ∷ 0x32_9000 ∷ 0x32_a000 ∷ 0x32_b000 ∷ 0x32_c000 ∷ 0x32_d000 ∷ 0x32_e000 ∷ 0x32_f000
    ∷ 0x33_0000 ∷ 0x33_1000 ∷ 0x33_2000 ∷ 0x33_3000 ∷ 0x33_4000 ∷ 0x33_5000 ∷ 0x33_6000 ∷ 0x33_7000
    ∷ 0x33_8000 ∷ 0x33_9000 ∷ 0x33_a000 ∷ 0x33_b000 ∷ 0x33_c000 ∷ 0x33_d000 ∷ 0x33_e000 ∷ 0x33_f000
    ∷ 0x34_0000 ∷ 0x34_1000 ∷ 0x34_2000 ∷ 0x34_3000 ∷ 0x34_4000 ∷ 0x34_5000 ∷ 0x34_6000 ∷ 0x34_7000
    ∷ 0x34_8000 ∷ 0x34_9000 ∷ 0x34_a000 ∷ 0x34_b000 ∷ 0x34_c000 ∷ 0x34_d000 ∷ 0x34_e000 ∷ 0x34_f000
    ∷ 0x35_0000 ∷ 0x35_1000 ∷ 0x35_2000 ∷ 0x35_3000 ∷ 0x35_4000 ∷ 0x35_5000 ∷ 0x35_6000 ∷ 0x35_7000
    ∷ 0x35_8000 ∷ 0x35_9000 ∷ 0x35_a000 ∷ 0x35_b000 ∷ 0x35_c000 ∷ 0x35_d000 ∷ 0x35_e000 ∷ 0x35_f000
    ∷ 0x36_0000 ∷ 0x36_1000 ∷ 0x36_2000 ∷ 0x36_3000 ∷ 0x36_4000 ∷ 0x36_5000 ∷ 0x36_6000 ∷ 0x36_7000
    ∷ 0x36_8000 ∷ 0x36_9000 ∷ 0x36_a000 ∷ 0x36_b000 ∷ 0x36_c000 ∷ 0x36_d000 ∷ 0x36_e000 ∷ 0x36_f000
    ∷ 0x37_0000 ∷ 0x37_1000 ∷ 0x37_2000 ∷ 0x37_3000 ∷ 0x37_4000 ∷ 0x37_5000 ∷ 0x37_6000 ∷ 0x37_7000
    ∷ 0x37_8000 ∷ 0x37_9000 ∷ 0x37_a000 ∷ 0x37_b000 ∷ 0x37_c000 ∷ 0x37_d000 ∷ 0x37_e000 ∷ 0x37_f000
    ∷ []

abbrev pub pages_at_3584_kb : List ℕ
pages_at_3584_kb =
    0x38_0000 ∷ 0x38_1000 ∷ 0x38_2000 ∷ 0x38_3000 ∷ 0x38_4000 ∷ 0x38_5000 ∷ 0x38_6000 ∷ 0x38_7000
    ∷ 0x38_8000 ∷ 0x38_9000 ∷ 0x38_a000 ∷ 0x38_b000 ∷ 0x38_c000 ∷ 0x38_d000 ∷ 0x38_e000 ∷ 0x38_f000
    ∷ 0x39_0000 ∷ 0x39_1000 ∷ 0x39_2000 ∷ 0x39_3000 ∷ 0x39_4000 ∷ 0x39_5000 ∷ 0x39_6000 ∷ 0x39_7000
    ∷ 0x39_8000 ∷ 0x39_9000 ∷ 0x39_a000 ∷ 0x39_b000 ∷ 0x39_c000 ∷ 0x39_d000 ∷ 0x39_e000 ∷ 0x39_f000
    ∷ 0x3a_0000 ∷ 0x3a_1000 ∷ 0x3a_2000 ∷ 0x3a_3000 ∷ 0x3a_4000 ∷ 0x3a_5000 ∷ 0x3a_6000 ∷ 0x3a_7000
    ∷ 0x3a_8000 ∷ 0x3a_9000 ∷ 0x3a_a000 ∷ 0x3a_b000 ∷ 0x3a_c000 ∷ 0x3a_d000 ∷ 0x3a_e000 ∷ 0x3a_f000
    ∷ 0x3b_0000 ∷ 0x3b_1000 ∷ 0x3b_2000 ∷ 0x3b_3000 ∷ 0x3b_4000 ∷ 0x3b_5000 ∷ 0x3b_6000 ∷ 0x3b_7000
    ∷ 0x3b_8000 ∷ 0x3b_9000 ∷ 0x3b_a000 ∷ 0x3b_b000 ∷ 0x3b_c000 ∷ 0x3b_d000 ∷ 0x3b_e000 ∷ 0x3b_f000
    ∷ 0x3c_0000 ∷ 0x3c_1000 ∷ 0x3c_2000 ∷ 0x3c_3000 ∷ 0x3c_4000 ∷ 0x3c_5000 ∷ 0x3c_6000 ∷ 0x3c_7000
    ∷ 0x3c_8000 ∷ 0x3c_9000 ∷ 0x3c_a000 ∷ 0x3c_b000 ∷ 0x3c_c000 ∷ 0x3c_d000 ∷ 0x3c_e000 ∷ 0x3c_f000
    ∷ 0x3d_0000 ∷ 0x3d_1000 ∷ 0x3d_2000 ∷ 0x3d_3000 ∷ 0x3d_4000 ∷ 0x3d_5000 ∷ 0x3d_6000 ∷ 0x3d_7000
    ∷ 0x3d_8000 ∷ 0x3d_9000 ∷ 0x3d_a000 ∷ 0x3d_b000 ∷ 0x3d_c000 ∷ 0x3d_d000 ∷ 0x3d_e000 ∷ 0x3d_f000
    ∷ 0x3e_0000 ∷ 0x3e_1000 ∷ 0x3e_2000 ∷ 0x3e_3000 ∷ 0x3e_4000 ∷ 0x3e_5000 ∷ 0x3e_6000 ∷ 0x3e_7000
    ∷ 0x3e_8000 ∷ 0x3e_9000 ∷ 0x3e_a000 ∷ 0x3e_b000 ∷ 0x3e_c000 ∷ 0x3e_d000 ∷ 0x3e_e000 ∷ 0x3e_f000
    ∷ 0x3f_0000 ∷ 0x3f_1000 ∷ 0x3f_2000 ∷ 0x3f_3000 ∷ 0x3f_4000 ∷ 0x3f_5000 ∷ 0x3f_6000 ∷ 0x3f_7000
    ∷ 0x3f_8000 ∷ 0x3f_9000 ∷ 0x3f_a000 ∷ 0x3f_b000 ∷ 0x3f_c000 ∷ 0x3f_d000 ∷ 0x3f_e000 ∷ 0x3f_f000
    ∷ []

unfoldable pub page_addresses : List ℕ
page_addresses =
    pages_at_0_kb ++ pages_at_512_kb ++ pages_at_1024_kb ++ pages_at_1536_kb ++ pages_at_2048_kb
    ++ pages_at_2560_kb ++ pages_at_3072_kb ++ pages_at_3584_kb
