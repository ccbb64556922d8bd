-- ===== src/Lib.antt =====
-- The firmware of an ESP8266: an HTTP server with the pages of the settings, updates over the air,
-- an HTTPS client, MQTT, a serial line in software, a store in RTC memory, a clock, a file system
-- in flash, and the C library that they use. This library models these parts, each in the files of
-- its name, by functions that follow the C code, and shows what they do.
--
-- Base holds what the parts share: tests on numbers, lists, integers, bits, and slices of memory.
--
-- Lost is the C library in esp8266/lost. Lost.Text has the string functions of lost.c (strsep,
-- strcspn and the others), Lost.Number has strtol and atoi, Lost.Double has strtod over the
-- arithmetic of the interface Double, Lost.Calendar has mktime of lost.c and os_mktime of
-- crypto.c, Lost.Crc has lfs_crc of lfs_util.c, Lost.Crypto the other functions of crypto.c, and
-- Lost.Cpp those of libcpp.cpp. A pointer to text is the list of the bytes from it on.
--
-- Rtc is esp8266/app/rtc.c: rtc_begin, rtc_reset, rtc_read and rtc_write over a memory that is
-- read and written in words, the interface RtcMemory.
--
-- Httpd is esp8266/app/httpd.c. Httpd has the registry of handlers, Httpd.Dispatch the callbacks
-- of a connection, over what strsep finds in the request, and Httpd.Params the parameters of a
-- URL. A handler is a function of the URL and the line.
--
-- Web is esp8266/web/system.cpp: the forms in Web, which leave their values in files, and the page
-- in its parts in Web.Pages. Start is esp8266/main.cpp: setup and wifi, which read these files.
-- Start.Settings and Start.Upgrade follow the settings from a form to their use, and Start.Routes
-- the requests from httpd.c to the pages that setup and wifi have registered.
--
-- Ota is esp8266/app/ota.c. Ota has the packets of the image, Ota.Request the datagram that asks
-- for it; Ota.Flash follows what the SDK is told to erase and to write. The partitions are those
-- of esp8266/init.c. Fota is esp8266/app/fota.cpp, which takes the image from the answer of an
-- HTTPS server: Fota.Packet and Fota.Header are about the header, and Fota.Body about what follows
-- it.
--
-- Https is esp8266/app/https.c: the URL, the handshake and the data of one connection. The
-- functions of the TLS library are the interface Tls. Https.Session has the connection as a
-- relation on the steps of the packets. Mqtt is esp8266/app/mqtt.cpp: the loop that publishes what
-- has changed, and in Mqtt.Connection the setup; Mqtt.Run has all of them in any order.
--
-- Uart is esp8266/app/uart.c: the interrupt handler and its ring in Uart, what the sender puts on
-- the line in Uart.Frame, the end of a frame on a quiet line in Uart.Idle, and uart_init and the
-- sender in hardware in Uart.Start. Uart.Loopback joins the two: deliver is the line and the
-- interrupt of the pin, which calls the handler on each change, later than the sender plans by
-- what a function late says; Uart.Frame.Wait bounds the part of it that is due to uart_wait_until.
-- Uart.Silence is about a long time without a change.
--
-- Clock is the part of esp8266/init.c that keeps the time. Ets is the task queue of esp8266/ets.c.
-- Gpio is esp8266/app/gpio.c: the interrupt handler in Gpio, the registration of a handler in
-- Gpio.Regist, and the resistors of the pins in Gpio.Pull. Init has the calls at the start in
-- esp8266/init.c. Phy is esp8266/phy.c.
--
-- Fs is esp8266/app/fs.c: the pages and sectors of the flash in Fs, and in Fs.Files the files over
-- littlefs, which is the interface Lfs. Fs.Files.Config is the pattern by which main.cpp and
-- system.cpp read settings, and Fs.Files.Memory is a store that meets the interface.
--
-- The calls of the SDK are values: the events that a callback returns, in order. What the SDK
-- returns is an argument. Where the C code would use memory outside an array, or a null pointer,
-- the model returns none. Loops that the code ends by a test have fuel: the loops of the receiver
-- run for at most the cycles that have passed, since each round takes baud_cycle of them, which is
-- not 0; the loops over pages run for at most the size; the loop over the pins has at most the 32
-- rounds of a register. Machine words wrap where the code lets them: the cycle counts and the
-- times are taken modulo 2 ^ 32, and the int and long of the sender, of strtol and of the seconds
-- in mktime have 32 bits and wrap; addresses and lengths stay below 2 ^ 31.
--
-- Not modelled are the parts of esp8266/main.cpp and esp8266/init.c under DEMO, functions that
-- only pass their arguments to the SDK, __errno and the empty functions of esp8266/lost, the
-- headers, which declare these functions, the project files, and the copy of the TLS library of
-- hostap in crypto, whose functions are arguments. Allocations are taken to succeed.
pub mod Base
pub mod Clock
pub mod Ets
pub mod Fota
pub mod Fs
pub mod Gpio
pub mod Httpd
pub mod Https
pub mod Init
pub mod Lost
pub mod Mqtt
pub mod Ota
pub mod Phy
pub mod Rtc
pub mod Start
pub mod Uart
pub mod Web
