-- ===== src/Platform/MemoryMap.antt =====
-- The memory map: src/platform/platform_config.h, and the calls of `map` in the constructor of
-- src/platform/gamingcpu_vp.cpp, in their order: the index of each is that of its socket.
use virtual_so_c.Prelude.{ℕ, List, [], ◌∷◌, Option, none, some}
use virtual_so_c.Bus.Map.{TlmBus, unmapped, map_all}

abbrev pub bootrom_base : ℕ
bootrom_base = 0x00000000

abbrev pub bootrom_size : ℕ
bootrom_size = 0x00010000

abbrev pub ram_base : ℕ
ram_base = 0x80000000

abbrev pub ram_size : ℕ
ram_size = 0x08000000

abbrev pub clint_base : ℕ
clint_base = 0x02000000

abbrev pub clint_size : ℕ
clint_size = 0x00010000

abbrev pub plic_base : ℕ
plic_base = 0x0C000000

abbrev pub plic_size : ℕ
plic_size = 0x04000000

abbrev pub uart_base : ℕ
uart_base = 0x10000000

abbrev pub uart_size : ℕ
uart_size = 0x00001000

abbrev pub gpio_base : ℕ
gpio_base = 0x10001000

abbrev pub gpio_size : ℕ
gpio_size = 0x00001000

abbrev pub timer_base : ℕ
timer_base = 0x10002000

abbrev pub timer_size : ℕ
timer_size = 0x00001000

abbrev pub spi_base : ℕ
spi_base = 0x10003000

abbrev pub spi_size : ℕ
spi_size = 0x00001000

abbrev pub sd_base : ℕ
sd_base = 0x10004000

abbrev pub sd_size : ℕ
sd_size = 0x00001000

abbrev pub dma_base : ℕ
dma_base = 0x10005000

abbrev pub dma_size : ℕ
dma_size = 0x00001000

abbrev pub video_base : ℕ
video_base = 0x10006000

abbrev pub video_size : ℕ
video_size = 0x00001000

abbrev pub audio_base : ℕ
audio_base = 0x10007000

abbrev pub audio_size : ℕ
audio_size = 0x00001000

abbrev pub mappings : List (ℕ × ℕ)
mappings =
    (bootrom_base, bootrom_size)
    ∷ (ram_base, ram_size)
    ∷ (clint_base, clint_size)
    ∷ (plic_base, plic_size)
    ∷ (uart_base, uart_size)
    ∷ (gpio_base, gpio_size)
    ∷ (timer_base, timer_size)
    ∷ (spi_base, spi_size)
    ∷ (sd_base, sd_size)
    ∷ (dma_base, dma_size)
    ∷ (video_base, video_size)
    ∷ (audio_base, audio_size)
    ∷ []

abbrev pub platform_bus : Option TlmBus
platform_bus = map_all mappings unmapped

-- The bus once the constructor is done: the mappings do not overlap (`Platform.Routed`).
abbrev pub bus : TlmBus
bus = elim platform_bus [ none ↦ unmapped | some b ↦ b ]

-- The sources of the PLIC.
abbrev pub irq_uart : ℕ
irq_uart = 1

abbrev pub irq_gpio : ℕ
irq_gpio = 2

abbrev pub irq_timer : ℕ
irq_timer = 3

abbrev pub irq_sd : ℕ
irq_sd = 4

abbrev pub irq_dma : ℕ
irq_dma = 5

abbrev pub irq_video : ℕ
irq_video = 6

abbrev pub irq_audio : ℕ
irq_audio = 7
